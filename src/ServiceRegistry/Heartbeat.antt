-- ===== src/ServiceRegistry/Heartbeat.antt =====
-- `handle_heartbeat` of services/orchestrator_rust/src/managers/service_registry.rs.
use text.Mathlib.Text.{◌==◌}
use arbees.Prelude.{
  ℕ, String, Bool, true, false, ◌||◌, not, Option, none, some, List, [], ◌∷◌, ◌++◌, if◌then◌else◌,
}
use arbees.Prelude.Dict.{Dict, lookup, insert}
use arbees.Prelude.Json.{Json, and_then, or_else, unwrap_or, filter_map}
use arbees.Prelude.Text.{contains, without, difference}
use arbees.AssignmentCircuit.{AssignmentCircuitConfig, default_config, record_assignment_failure}
use arbees.AssignmentCircuit
use arbees.ServiceRegistry.State.{
  ServiceType, game_shard, crypto_shard, polymarket_monitor, kalshi_monitor, other, is_shard,
  ServiceStatus, starting, healthy, degraded, unhealthy, stopping, ServiceState, Config,
  ServiceRegistry, instance_key, Message, notify, service_restarted,
}

unfoldable pub determine_service_type : String → ServiceType
determine_service_type service_name =
    if contains service_name "crypto_shard" || contains service_name "crypto-shard"
    then crypto_shard
    else if contains service_name "shard"
    then game_shard
    else if contains service_name "polymarket"
    then polymarket_monitor
    else if contains service_name "kalshi"
    then kalshi_monitor
    else other service_name

pub status_of : String → ServiceStatus
status_of s =
    if s == "starting"
    then starting
    else if s == "healthy"
    then healthy
    else if s == "degraded"
    then degraded
    else if s == "unhealthy"
    then unhealthy
    else if s == "stopping"
    then stopping
    else healthy

-- The breaker that a restarted service begins with.
abbrev pub fresh_circuit_config : Config → AssignmentCircuitConfig
fresh_circuit_config c = record {
  failure_threshold = c.assignment_circuit_failure_threshold;
  success_threshold = c.assignment_circuit_success_threshold;
  half_open_timeout = c.assignment_circuit_half_open_timeout_secs;
}

abbrev pub differs {ℓ} : {A : Type ℓ} → (A → A → Bool) → Option A → Option A → Bool
differs same (some new) (some old) = not (same new old)
differs same _ _ = false

abbrev pub same_number : ℕ → ℕ → Bool
same_number a b = elim (Prim.Native.Nat.compare a b) [
  | Prim.Native.Nat.Ordering.eq ↦ true
  | _ ↦ false
]

module _ {V : Type 0} (j : Json V) where
  abbrev pub text_at : V → String → Option String
  text_at payload name = and_then (j.get payload name) j.as_str

  -- A field, or else another, as a text.
  abbrev pub text_at_either : V → String → String → Option String
  text_at_either payload name name' =
      and_then (or_else (j.get payload name) (j.get payload name')) j.as_str

  unfoldable pub new_state : ServiceType → String → ℕ → ServiceState V
  new_state service_type instance_id now = record {
    service_type = service_type;
    instance_id = instance_id;
    last_process_id = none;
    last_started_at = none;
    status = starting;
    previous_status = none;
    last_heartbeat = now;
    consecutive_heartbeat_failures = 0;
    component_status = [];
    assigned_games = [];
    assignment_circuit = AssignmentCircuit.new default_config now;
    metrics = [];
  }

  unfoldable pub determine_service_type_from_heartbeat : String → V → ServiceType
  determine_service_type_from_heartbeat service_name payload = elim (text_at payload "shard_type") [
    | none ↦ determine_service_type service_name
    | some shard_type ↦
        let kind = j.to_lowercase shard_type in
        if kind == "crypto"
        then crypto_shard
        else if kind == "sports" || kind == "game"
        then game_shard
        else determine_service_type service_name
  ]

  unfoldable pub detect_restart : ServiceState V → Option String → Option ℕ → Bool
  detect_restart s process_id started_at =
      differs (λ a b. a == b) process_id s.last_process_id
      || differs same_number started_at s.last_started_at

  abbrev pub insert_checks : Dict V → Dict Bool → Dict Bool
  insert_checks [] checks = checks
  insert_checks ((key, v) ∷ vs) checks =
      insert_checks vs (elim (j.as_bool v) [ none ↦ checks | some b ↦ insert key b checks ])

  abbrev pub insert_all : Dict V → Dict V → Dict V
  insert_all [] metrics = metrics
  insert_all ((key, v) ∷ vs) metrics = insert_all vs (insert key v metrics)

  -- The games that the shard does not report are taken from it, each a failure of its circuit.
  unfoldable pub lose_games : List String → ServiceState V → ℕ → ServiceState V
  lose_games [] s now = s
  lose_games (game ∷ games) s now =
      lose_games games
        (record s {
          assignment_circuit = record_assignment_failure s.assignment_circuit now;
          assigned_games = without game s.assigned_games;
        })
        now

  unfoldable pub reported_games : V → Option (List String)
  reported_games payload =
      elim (and_then (or_else (j.get payload "games") (j.get payload "events")) j.as_array) [
        | none ↦ none
        | some games ↦ some (filter_map j.as_str games)
      ]

  unfoldable pub update_shard : V → ServiceState V → ℕ → ServiceState V
  update_shard payload s now =
      let s' : ServiceState V = elim (j.get payload "max_games") [
        | none ↦ s
        | some v ↦ record s { metrics = insert "max_games" v s.metrics }
      ] in
      elim (reported_games payload) [
        | none ↦ s'
        | some games ↦ lose_games (difference s'.assigned_games games) s' now
      ]

  -- What every heartbeat writes, with the process and the start that it reports.
  unfoldable pub update_state : V → Option String → Option ℕ → ServiceState V → ℕ → ServiceState V
  update_state payload process_id started_at s now =
      let s' = record s {
        last_process_id = or_else s.last_process_id process_id;
        last_started_at = or_else s.last_started_at started_at;
        last_heartbeat = now;
        consecutive_heartbeat_failures = 0;
        status = elim (text_at payload "status") [ none ↦ s.status | some t ↦ status_of t ];
        component_status = elim (and_then (j.get payload "checks") j.as_object) [
          | none ↦ s.component_status
          | some checks ↦ insert_checks checks []
        ];
        metrics = elim (and_then (j.get payload "metrics") j.as_object) [
          | none ↦ s.metrics
          | some metrics ↦ insert_all metrics []
        ];
      } in
      if is_shard s.service_type then update_shard payload s' now else s'

  -- A fresh circuit, and no games.
  unfoldable pub restarted : Config → ServiceState V → ℕ → ServiceState V
  restarted c s now = record s {
    assignment_circuit = AssignmentCircuit.new (fresh_circuit_config c) now;
    assigned_games = [];
  }

  abbrev pub restart_notice : Bool → String → String → Option ℕ → Option ℕ → List Message
  restart_notice true service instance_id (some old) (some new) =
      notify (service_restarted service instance_id old new) ∷ []
  restart_notice _ service instance_id _ _ = []

  -- The state that a heartbeat finds or makes, with the type that it reports.
  unfoldable pub found_state : ServiceRegistry V → V → String → String → ℕ → ServiceState V
  found_state r payload service_name instance_id now =
      let service_type = determine_service_type_from_heartbeat service_name payload in
      let s =
        unwrap_or (lookup (instance_key service_name instance_id) r.services)
          (new_state service_type instance_id now) in
      record s { service_type = service_type }

  -- A heartbeat with the names that it must have.
  unfoldable pub accept_heartbeat :
      ServiceRegistry V → V → String → String → ℕ → ServiceRegistry V × List Message
  accept_heartbeat r payload service_name instance_id now =
      let key = instance_key service_name instance_id in
      let s = found_state r payload service_name instance_id now in
      let process_id = text_at payload "process_id" in
      let started_at = and_then (text_at payload "started_at") j.parse_time in
      let is_restart = detect_restart s process_id started_at in
      let s' = if is_restart then restarted r.config s now else s in
      (
        record r {
          services = insert key (update_state payload process_id started_at s' now) r.services;
          pending_resyncs =
              if is_restart then r.pending_resyncs ++ (key ∷ []) else r.pending_resyncs;
        },
        restart_notice is_restart service_name instance_id s.last_started_at started_at,
      )

  -- With the error, if there is one.
  unfoldable pub handle_heartbeat :
      ServiceRegistry V → V → ℕ → ServiceRegistry V × List Message × Option String
  handle_heartbeat r payload now = elim (text_at_either payload "service" "shard_id") [
    | none ↦ (r, [], some "Missing service or shard_id in heartbeat")
    | some service_name ↦ elim (text_at_either payload "instance_id" "shard_id") [
      | none ↦ (r, [], some "Missing instance_id in heartbeat")
      | some instance_id ↦
          let (r', messages) = accept_heartbeat r payload service_name instance_id now in
          (r', messages, none)
    ]
  ]
