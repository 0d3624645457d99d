-- ===== src/ServiceRegistry/Tests.antt =====
-- The theorems on services/orchestrator_rust/src/managers/service_registry.rs at examples.
use package.text.Mathlib.TextEquality.{eq_iff}
use arbees.Prelude.{
  ◌≡◌, refl, ◌⊎◌, ◌↔◌, String, Bool, true, false, none, some, List, [], ◌∷◌, ◌++◌, replicate, arith,
  map,
}
use arbees.Prelude.Dict.{lookup, insert}
use arbees.Prelude.Json.{Tree, text, number, bool, object, field, no_fields, tree_json}
use arbees.ServiceRegistry.State.{
  game_shard, Config, ServiceRegistry, ServiceState, new, Message, instance_key, notify, dead,
  healthy, degraded,
}
use arbees.ServiceRegistry.Heartbeat.{
  handle_heartbeat, accept_heartbeat, update_state, detect_restart, found_state, new_state,
  determine_service_type_from_heartbeat, determine_service_type, update_shard, reported_games,
  text_at_either,
}
use arbees.ServiceRegistry.Health.{
  check_health, check_service, check_services, is_service_operational,
}
use arbees.ServiceRegistry.Routing.{
  ShardInfo, crypto, get_best_shard_for_type, preferred_shard_type,
}
use arbees.ServiceRegistry.Ops.{Op, apply, heartbeat, track, run}
use arbees.ServiceRegistry.Restarts.{IsOther, heartbeats, handle_heartbeat_lem, run-restarts}
use arbees.ServiceRegistry.Unassigned.{has_colon, IsUnassigned, run-new-IsUnassigned}
use arbees.ServiceRegistry.Checks.{in_time, check_service-status}
use arbees.ServiceRegistry.Best.{IsBest, IsFull, get_best_shard_for_type_lem}

abbrev config : Config
config = record {
  shard_timeout_secs = 60;
  assignment_circuit_failure_threshold = 5;
  assignment_circuit_half_open_timeout_secs = 30;
  assignment_circuit_success_threshold = 2;
}

abbrev beat : String → Tree
beat process = object (
    field "service" (text "shard") (
      field "instance_id" (text "one") (
        field "process_id" (text process) (
          field "max_games" (number 5) (
            field "status" (text "healthy")
              (field "checks" (object (field "redis_ok" (bool true) no_fields)) no_fields))))))

-- One game shard, that has told of itself once.
abbrev one_shard : ServiceRegistry Tree
one_shard = run tree_json (heartbeat (beat "a") 7 ∷ []) (new config)

one_shard-IsOther : IsOther tree_json one_shard (beat "b") "shard" "one" "a" "b"
unfolding run lookup apply handle_heartbeat accept_heartbeat insert new instance_key update_state
    detect_restart found_state new_state determine_service_type_from_heartbeat
    determine_service_type update_shard reported_games
one_shard-IsOther = record {
  names_service = refl;
  names_instance = refl;
  new_process = refl;
  other_process = λ e. ground (arith, eq_iff "b" "a");
  known = (_, refl, refl);
}

run-restarts_example :
    IsOther tree_json
      (run tree_json (heartbeats tree_json (8 ∷ 9 ∷ []) (beat "b")) one_shard)
      (beat "b")
      "shard"
      "one"
      "a"
      "b"
    × ((run tree_json (heartbeats tree_json (8 ∷ 9 ∷ []) (beat "b")) one_shard).pending_resyncs
        ≡ one_shard.pending_resyncs ++ replicate 2 (instance_key "shard" "one"))
run-restarts_example =
    run-restarts tree_json (8 ∷ 9 ∷ []) one_shard (beat "b") "shard" "one" "a" "b" one_shard-IsOther

handle_heartbeat_lem_example :
    (text_at_either tree_json (beat "b") "service" "shard_id" ≡ none
      → handle_heartbeat tree_json one_shard (beat "b") 8
        ≡ (one_shard, [], some "Missing service or shard_id in heartbeat"))
    × ((service : String)
        → text_at_either tree_json (beat "b") "service" "shard_id" ≡ some service
        → text_at_either tree_json (beat "b") "instance_id" "shard_id" ≡ none
        → handle_heartbeat tree_json one_shard (beat "b") 8
          ≡ (one_shard, [], some "Missing instance_id in heartbeat"))
    × ((service instance_id : String)
        → text_at_either tree_json (beat "b") "service" "shard_id" ≡ some service
        → text_at_either tree_json (beat "b") "instance_id" "shard_id" ≡ some instance_id
        → ((handle_heartbeat tree_json one_shard (beat "b") 8).2 ≡ none)
          × ((s : ServiceState Tree) × (lookup
                  (instance_key service instance_id)
                  ((handle_heartbeat tree_json one_shard (beat "b") 8).0.services)
                ≡ some s)
              × (s.last_heartbeat ≡ 8)
              × (s.consecutive_heartbeat_failures ≡ 0)))
handle_heartbeat_lem_example = handle_heartbeat_lem tree_json one_shard (beat "b") 8

abbrev calls : List (Op Tree)
calls = heartbeat (beat "a") 7 ∷ track "one" "game" ∷ []

abbrev all_taken : Message → Bool
all_taken m = true

no_colon : has_colon "one" ≡ false
unfolding has_colon
no_colon = refl

run-new-IsUnassigned_example :
    IsUnassigned tree_json (run tree_json calls (new config))
    × ((check_health tree_json all_taken (run tree_json calls (new config)) 70_000_000_000).1
        ≡ map notify (
            (check_services
              ((run tree_json calls (new config)).config)
              ((run tree_json calls (new config)).services)
              70_000_000_000).1))
run-new-IsUnassigned_example =
    run-new-IsUnassigned tree_json config calls all_taken 70_000_000_000 (tt, (no_colon, tt))

abbrev shard_state : ServiceState Tree
shard_state = new_state tree_json game_shard "one" 0

check_service-status_example :
    (((check_service config shard_state 70_000_000_000).state.status ≡ dead)
      ↔ (in_time config shard_state 70_000_000_000 ≡ false))
    × ((check_service config shard_state 70_000_000_000).state.status ≡ healthy
        → is_service_operational ((check_service config shard_state 70_000_000_000).state) ≡ true)
    × ((check_service config shard_state 70_000_000_000).state.status ≡ degraded
        → is_service_operational ((check_service config shard_state 70_000_000_000).state) ≡ false)
check_service-status_example = check_service-status config shard_state 70_000_000_000

get_best_shard_for_type_lem_example :
    ((info : ShardInfo)
      → get_best_shard_for_type tree_json one_shard crypto ≡ some info
      → IsBest tree_json one_shard (preferred_shard_type crypto) info
        ⊎ (IsFull tree_json one_shard (preferred_shard_type crypto)
            × IsBest tree_json one_shard game_shard info))
    × (get_best_shard_for_type tree_json one_shard crypto ≡ none
        → IsFull tree_json one_shard (preferred_shard_type crypto)
          × IsFull tree_json one_shard game_shard)
get_best_shard_for_type_lem_example = get_best_shard_for_type_lem tree_json one_shard crypto
