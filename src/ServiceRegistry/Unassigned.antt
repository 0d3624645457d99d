-- ===== src/ServiceRegistry/Unassigned.antt =====
-- What services/orchestrator_rust/src/managers/service_registry.rs knows of the games of a shard:
-- its map is keyed by `service:instance`, and it is asked for by the instance alone.
use Prim.Native.Char.{code}
use Prim.Native.String.{String, ◌++◌}
use text.Mathlib.TextLemmas.{nil-append, cons-append}
use text.Mathlib.TextEquality.{eq_iff}
use arbees.Prelude.{
  ℕ, ◌≡◌, ap, refl, inl, inr, Option-cases, Bool, true, false, ◌||◌, Option, none, some, List, [],
  ◌∷◌, All, map, arith, ◌==◌,
}
use arbees.Prelude.Dict.{Dict, lookup, insert}
use arbees.Prelude.Json.{Json}
use arbees.Prelude.Text.{difference, with_item}
use arbees.ServiceRegistry.State.{
  ServiceState, ServiceRegistry, Config, GameAssignment, Message, notify, new, instance_key,
  modify-missing,
}
use arbees.ServiceRegistry.Heartbeat.{
  new_state, handle_heartbeat, accept_heartbeat, found_state, restarted, update_state, update_shard,
  lose_games, reported_games,
}
use arbees.ServiceRegistry.Health.{
  check_alive, check_degraded, check_service, check_services, reassign_all, check_health,
}
use arbees.ServiceRegistry.Routing.{track_assignment, process_pending_resyncs}
use arbees.ServiceRegistry.Ops.{Op, heartbeat, health, track, resync, apply, run}

unfoldable pub has_colon : String → Bool
has_colon String.[] = false
has_colon (String.◌∷◌ c s) = code c == b':' || has_colon s

has_colon-instance_key :
    (service instance_id : String) → has_colon (instance_key service instance_id) ≡ true
unfolding has_colon instance_key
has_colon-instance_key String.[] instance_id =
    rw (nil-append (":" ++ instance_id), cons-append ":" String.[] instance_id) refl
has_colon-instance_key (String.◌∷◌ c s) instance_id =
    rw (cons-append c s (":" ++ instance_id)) (ground (arith, has_colon-instance_key s instance_id))

module _ {V : Type 0} (j : Json V) where
  -- Keys have a colon, and no service has a game.
  abbrev pub IsBare : String × ServiceState V → Type 0
  IsBare (key, s) = (has_colon key ≡ true) × (s.assigned_games ≡ [])

  pub record IsUnassigned (r : ServiceRegistry V) : Type 0 where
    pub no_games : All IsBare r.services
    pub no_assignments : r.assignments ≡ []

  insert-IsBare :
      (key : String) (s : ServiceState V) (m : Dict (ServiceState V))
      → IsBare (key, s)
      → All IsBare m
      → All IsBare (insert key s m)
  unfolding insert
  insert-IsBare key s [] h _ = (h, tt)
  insert-IsBare key s ((k, t) ∷ m) h (b, bs) = let rest = insert-IsBare key s m h bs in ground arith

  lookup-IsBare :
      (key : String) (s : ServiceState V) (m : Dict (ServiceState V))
      → All IsBare m
      → lookup key m ≡ some s
      → IsBare (key, s)
  unfolding lookup
  lookup-IsBare key s [] _ h = cc
  lookup-IsBare key s ((k, t) ∷ m) (b, bs) h =
      let rest = lookup-IsBare key s m bs in ground (arith, eq_iff key k, rest)

  -- A shard without games loses none.
  lose_none :
      (missing : List String) (s : ServiceState V) (now : ℕ)
      → missing ≡ []
      → s.assigned_games ≡ []
      → (lose_games j missing s now).assigned_games ≡ []
  unfolding lose_games
  lose_none [] s now e h = h
  lose_none (game ∷ games) s now e h = absurd (cc)

  update_shard-no_games :
      (payload : V) (s : ServiceState V) (now : ℕ)
      → s.assigned_games ≡ []
      → (update_shard j payload s now).assigned_games ≡ []
  unfolding update_shard
  update_shard-no_games payload s now h =
      let s' : ServiceState V = elim (j.get payload "max_games") [
        | none ↦ s
        | some v ↦ record s { metrics = insert "max_games" v s.metrics }
      ] in
      let h' : s'.assigned_games ≡ [] = ground arith in
      elim (Option-cases (reported_games j payload)) [
        | inl quiet ↦ rw (quiet, update_shard) h'
        | inr (games, told) ↦
            rw (told, update_shard)
              (lose_none (difference s'.assigned_games games) s' now
                (ap (λ (l : List String). difference l games) h') h')
      ]

  update_state-no_games :
      (payload : V) (process_id : Option String) (started_at : Option ℕ) (s : ServiceState V)
      (now : ℕ)
      → s.assigned_games ≡ []
      → (update_state j payload process_id started_at s now).assigned_games ≡ []
  unfolding update_state
  update_state-no_games payload process_id started_at s now h = grind (arith, update_shard-no_games)

  found_state-no_games :
      (r : ServiceRegistry V) (payload : V) (service instance_id : String) (now : ℕ)
      → IsUnassigned r
      → (found_state j r payload service instance_id now).assigned_games ≡ []
  unfolding found_state new_state
  found_state-no_games r payload service instance_id now v =
      let key = instance_key service instance_id in
      elim (Option-cases (lookup key r.services)) [
        | inl none_there ↦ rw none_there refl
        | inr (s, there) ↦ rw there ((lookup-IsBare key s r.services v.no_games there).1)
      ]

  accept_heartbeat-IsUnassigned :
      (r : ServiceRegistry V) (payload : V) (service instance_id : String) (now : ℕ)
      → IsUnassigned r
      → IsUnassigned ((accept_heartbeat j r payload service instance_id now).0)
  unfolding accept_heartbeat restarted
  accept_heartbeat-IsUnassigned r payload service instance_id now v =
      let none_found = found_state-no_games r payload service instance_id now v in
      record {
        no_games =
            insert-IsBare (instance_key service instance_id) _ r.services
              (
                has_colon-instance_key service instance_id,
                update_state-no_games payload _ _ _ now (ground arith),
              )
              v.no_games;
        no_assignments = v.no_assignments;
      }

  heartbeat-IsUnassigned :
      (r : ServiceRegistry V) (payload : V) (now : ℕ)
      → IsUnassigned r
      → IsUnassigned ((handle_heartbeat j r payload now).0)
  unfolding handle_heartbeat
  heartbeat-IsUnassigned r payload now v = grind (arith, accept_heartbeat-IsUnassigned)

  check_service-no_games :
      (c : Config) (s : ServiceState V) (now : ℕ)
      → s.assigned_games ≡ []
      → ((check_service c s now).state.assigned_games ≡ []) × ((check_service c s now).games ≡ [])
  unfolding check_service check_degraded check_alive
  check_service-no_games c s now h = ground arith

  check_services-IsBare :
      (c : Config) (m : Dict (ServiceState V)) (now : ℕ)
      → All IsBare m
      → All IsBare ((check_services c m now).0) × ((check_services c m now).2 ≡ [])
  unfolding check_services
  check_services-IsBare c [] now _ = (tt, refl)
  check_services-IsBare c ((key, s) ∷ m) now ((colon, b), bs) =
      let (rest, none_left) = check_services-IsBare c m now bs in
      let (games, none_here) = check_service-no_games c s now b in
      (((colon, games), rest), rw (none_here, none_left))

  check_health-nothing_to_do :
      (takes : Message → Bool) (r : ServiceRegistry V) (now : ℕ)
      → IsUnassigned r
      → IsUnassigned ((check_health j takes r now).0)
        × ((check_health j takes r now).1 ≡ map notify ((check_services r.config r.services now).1))
  unfolding check_health reassign_all
  check_health-nothing_to_do takes r now v =
      let (bare, none_left) = check_services-IsBare r.config r.services now v.no_games in
      (
        record { no_games = rw none_left bare; no_assignments = rw none_left v.no_assignments },
        rw none_left refl,
      )

  track_assignment-IsUnassigned :
      (r : ServiceRegistry V) (shard_id game_id : String)
      → has_colon shard_id ≡ false
      → IsUnassigned r
      → track_assignment j r shard_id game_id ≡ r
  unfolding track_assignment
  track_assignment-IsUnassigned r shard_id game_id plain v =
      elim (Option-cases (lookup shard_id r.services)) [
        | inl none_there ↦
            rw
              (modify-missing shard_id
                (λ (s : ServiceState V). record s {
                  assigned_games = with_item game_id s.assigned_games;
                })
                r.services none_there)
              refl
        | inr (s, there) ↦
            absurd (cc (plain, (lookup-IsBare shard_id s r.services v.no_games there).0))
      ]

  resync-IsUnassigned :
      (takes : Message → Bool) (r : ServiceRegistry V) (assignments : Dict GameAssignment) (now : ℕ)
      → IsUnassigned r
      → IsUnassigned ((process_pending_resyncs j takes r assignments now).0)
  unfolding process_pending_resyncs
  resync-IsUnassigned takes r assignments now v = ground arith

  -- A call that tracks no game of a shard whose name has a colon.
  abbrev pub IsPlain : Op V → Type 0
  IsPlain (track shard_id game_id) = has_colon shard_id ≡ false
  IsPlain _ = Unit

  apply-IsUnassigned :
      (op : Op V) (r : ServiceRegistry V)
      → IsPlain op
      → IsUnassigned r
      → IsUnassigned (apply j op r)
  unfolding apply
  apply-IsUnassigned (heartbeat payload now) r p v = heartbeat-IsUnassigned r payload now v
  apply-IsUnassigned (health takes now) r p v = (check_health-nothing_to_do takes r now v).0
  apply-IsUnassigned (track shard_id game_id) r p v =
      rw (track_assignment-IsUnassigned r shard_id game_id p v) v
  apply-IsUnassigned (resync takes assignments now) r p v =
      resync-IsUnassigned takes r assignments now v

  run-IsUnassigned :
      (ops : List (Op V)) (r : ServiceRegistry V)
      → All IsPlain ops
      → IsUnassigned r
      → IsUnassigned (run j ops r)
  unfolding run
  run-IsUnassigned [] r _ v = v
  run-IsUnassigned (op ∷ ops) r (p, ps) v =
      run-IsUnassigned ops (apply j op r) ps (apply-IsUnassigned op r p v)

  -- Whatever heartbeats, health checks, resyncs and tracked assignments come, so long as no shard
  -- that a game is tracked for has a colon in its name, the registry holds no game of any shard
  -- and no assignment, and a health check sends notifications alone: no game of a dead or a
  -- degraded shard is ever taken away or handed on.
  pub run-new-IsUnassigned :
      (c : Config) (ops : List (Op V)) (takes : Message → Bool) (now : ℕ)
      → All IsPlain ops
      → IsUnassigned (run j ops (new c))
        × ((check_health j takes (run j ops (new c)) now).1
            ≡ map notify (
                (check_services ((run j ops (new c)).config) ((run j ops (new c)).services) now).1))
  unfolding new
  run-new-IsUnassigned c ops takes now ps =
      let empty : IsUnassigned (new c) = record { no_games = tt; no_assignments = refl } in
      let v = run-IsUnassigned ops (new c) ps empty in
      (v, (check_health-nothing_to_do takes (run j ops (new c)) now v).1)
