-- ===== src/ServiceRegistry/Health.antt =====
-- `check_health` and `reassign_game` of
-- services/orchestrator_rust/src/managers/service_registry.rs.
use text.Mathlib.Text.{◌==◌}
use arbees.Prelude.{
  ℕ, String, Bool, true, false, ◌&&◌, not, Option, none, some, List, [], ◌∷◌, ◌++◌, leb, ltb,
  if◌then◌else◌, filter, map,
}
use arbees.Prelude.Int.{pos, ltb_ℤ}
use arbees.Prelude.Word.{wrap_i64}
use arbees.Prelude.Dict.{Dict, lookup, insert}
use arbees.Prelude.Json.{Json, unwrap_or}
use arbees.Prelude.Text.{with_item, without}
use arbees.AssignmentCircuit.{CircuitState, closed}
use arbees.ServiceRegistry.State.{
  ServiceType, game_shard, crypto_shard, polymarket_monitor, kalshi_monitor, other, is_shard,
  ServiceStatus, starting, healthy, degraded, dead, is_healthy, is_degraded, is_dead, ServiceState,
  Config, ServiceRegistry, Message, notify, add_game, remove_game, Notification, service_dead,
  service_recovered, seconds_since, available_capacity, modify,
}

abbrev pub was_healthy : Option ServiceStatus → Bool
was_healthy none = false
was_healthy (some s) = is_healthy s

abbrev pub is_closed : CircuitState → Bool
is_closed closed = true
is_closed _ = false

abbrev pub is_empty : List String → Bool
is_empty [] = true
is_empty _ = false

abbrev pub is_healthy_or_starting : ServiceStatus → Bool
is_healthy_or_starting healthy = true
is_healthy_or_starting starting = true
is_healthy_or_starting _ = false

-- What a check of one service makes of it: its state, what it tells, and the games that are to
-- leave it.
pub record Checked (V : Type 0) : Type 0 where
  pub state : ServiceState V
  pub notices : List Notification
  pub games : List (String × List String)

module _ {V : Type 0} where
  abbrev pub component_ok : ServiceState V → String → Bool
  component_ok s name = unwrap_or (lookup name s.component_status) false

  operational_as : ServiceType → ServiceState V → Bool
  operational_as game_shard s = component_ok s "redis_ok"
  operational_as crypto_shard s = component_ok s "redis_ok"
  operational_as polymarket_monitor s =
      component_ok s "redis_ok" && component_ok s "vpn_ok" && component_ok s "ws_ok"
  operational_as kalshi_monitor s = component_ok s "redis_ok" && component_ok s "ws_ok"
  operational_as (other name) s = is_healthy_or_starting s.status

  unfoldable pub is_service_operational : ServiceState V → Bool
  unfolding operational_as
  is_service_operational s = operational_as s.service_type s

  -- The games of a shard that has some.
  abbrev pub games_of : ServiceState V → List (String × List String)
  games_of s =
      if is_shard s.service_type && not (is_empty s.assigned_games)
      then (s.instance_id, s.assigned_games) ∷ []
      else []

  -- Dead once the timeout has passed, healthy again once a heartbeat has come.
  unfoldable pub check_alive : Config → ServiceState V → ℕ → Checked V
  check_alive c s now =
      let age_secs = seconds_since s.last_heartbeat now in
      let in_time = ltb_ℤ age_secs (wrap_i64 (pos c.shard_timeout_secs)) in
      if not in_time && not (is_dead s.status)
      then (record {
        state = record s { previous_status = some s.status; status = dead };
        notices = service_dead s.service_type s.instance_id s.assigned_games ∷ [];
        games = games_of s;
      })
      else if in_time && is_dead s.status
      then (record {
        state = record s { previous_status = some s.status; status = healthy };
        notices = service_recovered s.service_type s.instance_id age_secs ∷ [];
        games = [];
      })
      else (record { state = s; notices = []; games = [] })

  -- Degraded while it is healthy and not operational, healthy again once it is.
  unfoldable pub check_degraded : Bool → Checked V → Checked V
  check_degraded before k =
      let s = k.state in
      let operational = is_service_operational s in
      if not operational && is_healthy s.status
      then (record k {
        state = record s { previous_status = some s.status; status = degraded };
        games = k.games ++ (if before then games_of s else []);
      })
      else if operational && is_degraded s.status
      then (record k { state = record s { previous_status = some s.status; status = healthy } })
      else k

  abbrev pub first_status : ServiceState V → ServiceState V
  first_status s = elim s.previous_status [
    | none ↦ record s { previous_status = some s.status }
    | some old ↦ s
  ]

  unfoldable pub check_service : Config → ServiceState V → ℕ → Checked V
  check_service c s now =
      let k = check_degraded (was_healthy s.previous_status) (check_alive c s now) in
      record k { state = first_status k.state }

  -- The loop over all services.
  unfoldable pub check_services :
      Config
      → Dict (ServiceState V)
      → ℕ
      → Dict (ServiceState V) × List Notification × List (String × List String)
  check_services c [] now = ([], [], [])
  check_services c ((key, s) ∷ rest) now =
      let k = check_service c s now in
      let (rest', notices, games) = check_services c rest now in
      ((key, k.state) ∷ rest', k.notices ++ notices, k.games ++ games)

  pub values : Dict (ServiceState V) → List (ServiceState V)
  values [] = []
  values ((key, s) ∷ rest) = s ∷ values rest

  -- The last three filters of `get_healthy_shards` and of `get_healthy_shards_by_type`.
  abbrev pub is_assignable : ServiceState V → Bool
  is_assignable s =
      is_healthy s.status && is_service_operational s && is_closed s.assignment_circuit.state

  pub get_healthy_shards : ServiceRegistry V → List (ServiceState V)
  get_healthy_shards r =
      filter (λ s. is_shard s.service_type && is_assignable s) (values r.services)

  -- `max_by_key`, which gives the last of the greatest.
  unfoldable pub max_by_capacity :
      Json V → Option (ServiceState V) → List (ServiceState V) → Option (ServiceState V)
  max_by_capacity j best [] = best
  max_by_capacity j none (s ∷ ss) = max_by_capacity j (some s) ss
  max_by_capacity j (some b) (s ∷ ss) =
      max_by_capacity j
        (some (if leb (available_capacity j b) (available_capacity j s) then s else b)) ss

  -- The messages that it publishes, of which `takes` says which ones Redis takes.
  pub reassign_game :
      Json V
      → (Message → Bool)
      → ServiceRegistry V
      → String
      → String
      → ServiceRegistry V × List Message
  reassign_game j takes r game_id old_shard_id =
      let candidates =
        filter (λ s. ltb 0 (available_capacity j s) && not (s.instance_id == old_shard_id))
          (get_healthy_shards r) in
      elim (max_by_capacity j none candidates) [
        | none ↦ (r, [])
        | some shard ↦ elim (lookup game_id r.assignments) [
          | none ↦ (r, remove_game old_shard_id game_id ∷ [])
          | some old ↦
              let assignment = record old { shard_id = shard.instance_id } in
              let add = add_game shard.instance_id assignment in
              let sent = remove_game old_shard_id game_id ∷ add ∷ [] in
              if takes add
              then (
                record r {
                  services =
                      modify shard.instance_id
                        (λ s. record s { assigned_games = with_item game_id s.assigned_games })
                        (modify old_shard_id
                          (λ s. record s { assigned_games = without game_id s.assigned_games })
                          r.services);
                  assignments = insert game_id assignment r.assignments;
                },
                sent,
              )
              else (r, sent)
        ]
      ]

  pub reassign_games :
      Json V
      → (Message → Bool)
      → ServiceRegistry V
      → String
      → List String
      → ServiceRegistry V × List Message
  reassign_games j takes r shard_id [] = (r, [])
  reassign_games j takes r shard_id (game ∷ games) =
      let (r', sent) = reassign_game j takes r game shard_id in
      let (r'', more) = reassign_games j takes r' shard_id games in (r'', sent ++ more)

  unfoldable pub reassign_all :
      Json V
      → (Message → Bool)
      → ServiceRegistry V
      → List (String × List String)
      → ServiceRegistry V × List Message
  reassign_all j takes r [] = (r, [])
  reassign_all j takes r ((shard_id, games) ∷ rest) =
      let (r', sent) = reassign_games j takes r shard_id games in
      let (r'', more) = reassign_all j takes r' rest in (r'', sent ++ more)

  unfoldable pub check_health :
      Json V → (Message → Bool) → ServiceRegistry V → ℕ → ServiceRegistry V × List Message
  check_health j takes r now =
      let (services', notices, games) = check_services r.config r.services now in
      let (r', sent) = reassign_all j takes (record r { services = services' }) games in
      (r', sent ++ map notify notices)
