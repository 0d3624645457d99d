-- ===== src/ServiceRegistry/Restarts.antt =====
-- How services/orchestrator_rust/src/managers/service_registry.rs takes heartbeats: errors, what a
-- heartbeat refreshes, and the detection of restarts.
use text.Mathlib.TextEquality.{eq_iff}
use arbees.Prelude.{
  ℕ, ◌≡◌, sym, ◌∙◌, ◌≢◌, refl, String, Bool, true, Option, none, some, List, [], ◌∷◌, ◌++◌,
  replicate, length, append_assoc, append_nil, arith, if◌then◌else◌,
}
use arbees.Prelude.Dict.{lookup, lookup-insert}
use arbees.Prelude.Json.{Json, and_then}
use arbees.ServiceRegistry.State.{ServiceRegistry, ServiceState, instance_key}
use arbees.ServiceRegistry.Ops.{Op, heartbeat, apply, run}
use arbees.ServiceRegistry.Heartbeat.{
  text_at, text_at_either, handle_heartbeat, accept_heartbeat, found_state, detect_restart,
  restarted, update_state, update_shard, lose_games,
}

module _ {V : Type 0} (j : Json V) where
  -- Losing games leaves what a heartbeat has reported.
  lose_games-kept :
      (games : List String) (s : ServiceState V) (now : ℕ)
      → ((lose_games j games s now).last_process_id ≡ s.last_process_id)
        × ((lose_games j games s now).last_heartbeat ≡ s.last_heartbeat)
        × ((lose_games j games s now).consecutive_heartbeat_failures
            ≡ s.consecutive_heartbeat_failures)
  unfolding lose_games
  lose_games-kept [] s now = (refl, refl, refl)
  lose_games-kept (game ∷ games) s now = lose_games-kept games _ now

  update_state-kept :
      (payload : V) (process_id : Option String) (started_at : Option ℕ) (s : ServiceState V)
      (now : ℕ) (old : String)
      → s.last_process_id ≡ some old
      → (update_state j payload process_id started_at s now).last_process_id ≡ some old
  unfolding update_state update_shard
  update_state-kept payload process_id started_at s now old h = grind (arith, lose_games-kept)

  update_state-refreshed :
      (payload : V) (process_id : Option String) (started_at : Option ℕ) (s : ServiceState V)
      (now : ℕ)
      → ((update_state j payload process_id started_at s now).last_heartbeat ≡ now)
        × ((update_state j payload process_id started_at s now).consecutive_heartbeat_failures ≡ 0)
  unfolding update_state update_shard
  update_state-refreshed payload process_id started_at s now = grind (arith, lose_games-kept)

  -- The state that a service has after a heartbeat.
  abbrev updated : ServiceRegistry V → V → String → String → ℕ → ServiceState V
  updated r payload service instance_id now =
      let s = found_state j r payload service instance_id now in
      let process_id = text_at j payload "process_id" in
      let started_at = and_then (text_at j payload "started_at") j.parse_time in
      update_state j payload process_id started_at
        (if detect_restart j s process_id started_at then restarted j r.config s now else s) now

  accept_heartbeat-lookup :
      (r : ServiceRegistry V) (payload : V) (service instance_id : String) (now : ℕ)
      → lookup
          (instance_key service instance_id)
          ((accept_heartbeat j r payload service instance_id now).0.services)
        ≡ some (updated r payload service instance_id now)
  unfolding accept_heartbeat
  accept_heartbeat-lookup r payload service instance_id now =
      let key = instance_key service instance_id in
      let s = updated r payload service instance_id now in
      ground (arith, lookup-insert key key s r.services, eq_iff key key)

  -- A heartbeat that names no service, or no instance, changes nothing, sends nothing and says
  -- which name is missing; one that names both gives no error, and the service is then known under
  -- both names, with the time of the heartbeat and no failures counted.
  pub handle_heartbeat_lem :
      (r : ServiceRegistry V) (payload : V) (now : ℕ)
      → (text_at_either j payload "service" "shard_id" ≡ none
          → handle_heartbeat j r payload now
            ≡ (r, [], some "Missing service or shard_id in heartbeat"))
        × ((service : String)
            → text_at_either j payload "service" "shard_id" ≡ some service
            → text_at_either j payload "instance_id" "shard_id" ≡ none
            → handle_heartbeat j r payload now ≡ (r, [], some "Missing instance_id in heartbeat"))
        × ((service instance_id : String)
            → text_at_either j payload "service" "shard_id" ≡ some service
            → text_at_either j payload "instance_id" "shard_id" ≡ some instance_id
            → ((handle_heartbeat j r payload now).2 ≡ none)
              × ((s : ServiceState V) × (lookup
                      (instance_key service instance_id)
                      ((handle_heartbeat j r payload now).0.services)
                    ≡ some s)
                  × (s.last_heartbeat ≡ now)
                  × (s.consecutive_heartbeat_failures ≡ 0)))
  unfolding handle_heartbeat
  handle_heartbeat_lem r payload now = (
    λ e. ground arith,
    λ service e e'. ground arith,
    λ service instance_id e e'.
        let found = accept_heartbeat-lookup r payload service instance_id now in
        let s = updated r payload service instance_id now in
        (
          ground arith,
          (
            s,
            ground (arith, found),
            (update_state-refreshed payload _ _ _ now).0,
            (update_state-refreshed payload _ _ _ now).1,
          ),
        ),
  )

  -- A known service under a key, the process that it first reported, and a payload of another one.
  pub record IsOther (r : ServiceRegistry V) (payload : V) (service instance_id old new : String)
      : Type 0 where
    pub names_service : text_at_either j payload "service" "shard_id" ≡ some service
    pub names_instance : text_at_either j payload "instance_id" "shard_id" ≡ some instance_id
    pub new_process : text_at j payload "process_id" ≡ some new
    pub other_process : new ≢ old
    pub known :
        (s : ServiceState V) × (lookup (instance_key service instance_id) r.services ≡ some s)
        × (s.last_process_id ≡ some old)

  found_process :
      (r : ServiceRegistry V) (payload : V) (service instance_id : String) (now : ℕ)
      (s : ServiceState V)
      → lookup (instance_key service instance_id) r.services ≡ some s
      → (found_state j r payload service instance_id now).last_process_id ≡ s.last_process_id
  unfolding found_state
  found_process r payload service instance_id now s h = rw h

  restarted-process :
      (r : ServiceRegistry V) (s : ServiceState V) (b : Bool) (now : ℕ) (old : String)
      → s.last_process_id ≡ some old
      → (if b then restarted j r.config s now else s).last_process_id ≡ some old
  unfolding restarted
  restarted-process r s b now old h = ground arith

  updated-process :
      (r : ServiceRegistry V) (payload : V) (service instance_id : String) (now : ℕ) (old : String)
      → (found_state j r payload service instance_id now).last_process_id ≡ some old
      → (updated r payload service instance_id now).last_process_id ≡ some old
  updated-process r payload service instance_id now old h =
      update_state-kept payload _ _ _ now old
        (restarted-process r (found_state j r payload service instance_id now) _ now old h)

  detect_restart-process :
      (s : ServiceState V) (old new : String) (started_at : Option ℕ)
      → s.last_process_id ≡ some old
      → new ≢ old
      → detect_restart j s (some new) started_at ≡ true
  unfolding detect_restart
  detect_restart-process s old new started_at h ne = rw h (ground (arith, eq_iff new old))

  accept_heartbeat-queued :
      (r : ServiceRegistry V) (payload : V) (service instance_id : String) (now : ℕ)
      → detect_restart j
          (found_state j r payload service instance_id now)
          (text_at j payload "process_id")
          (and_then (text_at j payload "started_at") j.parse_time)
        ≡ true
      → (accept_heartbeat j r payload service instance_id now).0.pending_resyncs
        ≡ r.pending_resyncs ++ (instance_key service instance_id ∷ [])
  unfolding accept_heartbeat
  accept_heartbeat-queued r payload service instance_id now h = rw h refl

  heartbeat-IsOther :
      (r : ServiceRegistry V) (payload : V) (service instance_id old new : String) (now : ℕ)
      → IsOther r payload service instance_id old new
      → IsOther ((handle_heartbeat j r payload now).0) payload service instance_id old new
        × ((handle_heartbeat j r payload now).0.pending_resyncs
            ≡ r.pending_resyncs ++ (instance_key service instance_id ∷ []))
  unfolding handle_heartbeat
  heartbeat-IsOther r payload service instance_id old new now v =
      let (s, at_key, process) = v.known in
      let found = found_process r payload service instance_id now s at_key ∙ process in
      let next = updated r payload service instance_id now in
      let same : handle_heartbeat j r payload now ≡ (
        (accept_heartbeat j r payload service instance_id now).0,
        (accept_heartbeat j r payload service instance_id now).1,
        none,
      ) =
        ground (arith, v.names_service, v.names_instance) in
      let queued : (accept_heartbeat j r payload service instance_id now).0.pending_resyncs
          ≡ r.pending_resyncs ++ (instance_key service instance_id ∷ []) =
        accept_heartbeat-queued r payload service instance_id now (
          rw v.new_process (
            detect_restart-process (found_state j r payload service instance_id now) old new _ found
              v.other_process)) in
      (
        record {
          names_service = v.names_service;
          names_instance = v.names_instance;
          new_process = v.new_process;
          other_process = v.other_process;
          known = (
            next,
            rw same (accept_heartbeat-lookup r payload service instance_id now),
            updated-process r payload service instance_id now old found,
          );
        },
        rw same queued,
      )

  pub heartbeats : List ℕ → V → List (Op V)
  heartbeats [] payload = []
  heartbeats (now ∷ times) payload = heartbeat payload now ∷ heartbeats times payload

  -- Once a service has reported a process, each heartbeat of another process is taken for a
  -- restart, however many there have been: it queues one more resync of the service, and the
  -- process that the registry knows stays the first.
  pub run-restarts :
      (times : List ℕ) (r : ServiceRegistry V) (payload : V) (service instance_id old new : String)
      → IsOther r payload service instance_id old new
      → IsOther (run j (heartbeats times payload) r) payload service instance_id old new
        × ((run j (heartbeats times payload) r).pending_resyncs
            ≡ r.pending_resyncs ++ replicate (length times) (instance_key service instance_id))
  unfolding heartbeats run apply
  run-restarts [] r payload service instance_id old new v = (v, sym (append_nil r.pending_resyncs))
  run-restarts (now ∷ times) r payload service instance_id old new v =
      let (v', queued) = heartbeat-IsOther r payload service instance_id old new now v in
      let (v'', all) =
        run-restarts times ((handle_heartbeat j r payload now).0) payload service instance_id old
          new v' in
      (v'', all ∙ rw queued (append_assoc r.pending_resyncs _ _))
