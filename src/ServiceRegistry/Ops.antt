-- ===== src/ServiceRegistry/Ops.antt =====
-- The calls on the registry of services/orchestrator_rust/src/managers/service_registry.rs, in
-- the order in which the orchestrator makes them.
use arbees.Prelude.{ℕ, String, Bool, List, [], ◌∷◌}
use arbees.Prelude.Dict.{Dict}
use arbees.Prelude.Json.{Json}
use arbees.ServiceRegistry.State.{GameAssignment, Message, ServiceRegistry}
use arbees.ServiceRegistry.Heartbeat.{handle_heartbeat}
use arbees.ServiceRegistry.Health.{check_health}
use arbees.ServiceRegistry.Routing.{track_assignment, process_pending_resyncs}

pub data Op (V : Type 0) : Type 0 where
  heartbeat : (payload : V) (now : ℕ) → Op V
  health : (takes : Message → Bool) (now : ℕ) → Op V
  track : (shard_id game_id : String) → Op V
  resync : (takes : Message → Bool) (assignments : Dict GameAssignment) (now : ℕ) → Op V

module _ {V : Type 0} (j : Json V) where
  unfoldable pub apply : Op V → ServiceRegistry V → ServiceRegistry V
  apply (heartbeat payload now) r = (handle_heartbeat j r payload now).0
  apply (health takes now) r = (check_health j takes r now).0
  apply (track shard_id game_id) r = track_assignment j r shard_id game_id
  apply (resync takes assignments now) r = (process_pending_resyncs j takes r assignments now).0

  unfoldable pub run : List (Op V) → ServiceRegistry V → ServiceRegistry V
  run [] r = r
  run (op ∷ ops) r = run ops (apply op r)
