-- ===== src/ServiceRegistry/State.antt =====
-- The data of services/orchestrator_rust/src/state.rs and of `ServiceRegistry`. `DateTime<Utc>` is
-- nanoseconds since 1970. A value of JSON in the metrics has the type `V`.
use Prim.Native.String.{String, ◌++◌}
use text.Mathlib.Text.{◌==◌}
use arbees.Prelude.{
  ◌≡◌, arith, ℕ, ◌-◌, ◌/◌, Bool, true, false, Option, none, some, List, [], leb, if◌then◌else◌,
  length,
}
use arbees.Prelude.Int.{ℤ, pos, sub_ℕ}
use arbees.Prelude.Dict.{Dict, lookup, insert}
use arbees.Prelude.Json.{Json, and_then, unwrap_or}
use arbees.AssignmentCircuit.{AssignmentCircuitBreaker}

pub data ServiceType : Type 0 where
  game_shard crypto_shard polymarket_monitor kalshi_monitor : ServiceType
  other : (name : String) → ServiceType

pub data ServiceStatus : Type 0 where
  starting healthy degraded unhealthy stopping dead : ServiceStatus

-- `GameShard | CryptoShard`.
abbrev pub is_shard : ServiceType → Bool
is_shard game_shard = true
is_shard crypto_shard = true
is_shard _ = false

-- `==` on types of services.
abbrev pub same_type : ServiceType → ServiceType → Bool
same_type game_shard game_shard = true
same_type crypto_shard crypto_shard = true
same_type polymarket_monitor polymarket_monitor = true
same_type kalshi_monitor kalshi_monitor = true
same_type (other a) (other b) = a == b
same_type _ _ = false

abbrev pub is_healthy : ServiceStatus → Bool
is_healthy healthy = true
is_healthy _ = false

abbrev pub is_degraded : ServiceStatus → Bool
is_degraded degraded = true
is_degraded _ = false

abbrev pub is_dead : ServiceStatus → Bool
is_dead dead = true
is_dead _ = false

-- The `sport` and the market ids by type are passed on unread: one value stands for them.
pub record GameAssignment : Type 0 where
  pub game_id : String
  pub details : String
  pub shard_id : String
  pub kalshi_market_id : Option String
  pub polymarket_market_id : Option String
  pub assigned_at : ℕ

pub record ServiceState (V : Type 0) : Type 0 where
  pub service_type : ServiceType
  pub instance_id : String
  pub last_process_id : Option String
  pub last_started_at : Option ℕ
  pub status : ServiceStatus
  pub previous_status : Option ServiceStatus
  pub last_heartbeat : ℕ
  pub consecutive_heartbeat_failures : ℕ
  pub component_status : Dict Bool
  pub assigned_games : List String
  pub assignment_circuit : AssignmentCircuitBreaker
  pub metrics : Dict V

pub record Config : Type 0 where
  pub shard_timeout_secs : ℕ
  pub assignment_circuit_failure_threshold : ℕ
  pub assignment_circuit_half_open_timeout_secs : ℕ
  pub assignment_circuit_success_threshold : ℕ

pub record ServiceRegistry (V : Type 0) : Type 0 where
  pub services : Dict (ServiceState V)
  pub pending_resyncs : List String
  pub config : Config
  pub assignments : Dict GameAssignment

unfoldable pub new : {V : Type 0} → Config → ServiceRegistry V
new config = record { services = []; pending_resyncs = []; config = config; assignments = [] }

-- `format!("{}:{}")`.
unfoldable pub instance_key : String → String → String
instance_key service_name instance_id = service_name ++ (":" ++ instance_id)

pub data Notification : Type 0 where
  service_restarted :
      (service instance_id : String) (old_started_at new_started_at : ℕ) → Notification
  service_dead : (service : ServiceType) (instance_id : String) (games : List String) → Notification
  service_recovered :
      (service : ServiceType) (instance_id : String) (was_degraded_for_secs : ℤ) → Notification
  service_resync_complete : (instance_id : String) (games_resent : ℕ) → Notification

-- The messages that the registry publishes.
pub data Message : Type 0 where
  add_game : (shard_id : String) (assignment : GameAssignment) → Message
  remove_game : (shard_id game_id : String) → Message
  polymarket_assign : (game_id condition_id : String) → Message
  kalshi_assign : (game_id ticker : String) → Message
  notify : Notification → Message

-- `signed_duration_since(..).num_seconds()`: whole seconds towards 0.
abbrev pub seconds_since : ℕ → ℕ → ℤ
seconds_since t now =
    if leb t now then pos ((now - t) / 1_000_000_000) else sub_ℕ 0 ((t - now) / 1_000_000_000)

-- `max_games - game_count` where that is above 0.
pub available_capacity : {V : Type 0} → Json V → ServiceState V → ℕ
available_capacity j s =
    if is_shard s.service_type
    then unwrap_or (and_then (lookup "max_games" s.metrics) j.as_u64) 0 - length s.assigned_games
    else 0

-- `get_mut` of a key, with a change where it is found.
abbrev pub modify : {V : Type 0} → String → (V → V) → Dict V → Dict V
modify key change m = elim (lookup key m) [ none ↦ m | some v ↦ insert key (change v) m ]

pub modify-missing :
    {V : Type 0} (key : String) (change : V → V) (m : Dict V)
    → lookup key m ≡ none
    → modify key change m ≡ m
modify-missing key change m h = ground arith
