-- ===== src/AssignmentCircuit/Tests.antt =====
-- The `AssignmentCircuitBreaker` of services/orchestrator_rust/src/state.rs at concrete inputs.
use arbees.Prelude.{◌≡◌, refl, true, false, arith}
use arbees.AssignmentCircuit.{
  AssignmentCircuitBreaker, closed, open_, default_config, can_assign, record_successes,
}
use arbees.AssignmentCircuit.Recovery.{can_assign-recovers}

abbrev fresh : AssignmentCircuitBreaker
fresh = record {
  state = closed;
  failure_count = 0;
  success_count = 0;
  last_state_change = 0;
  config = default_config;
}

abbrev opened : AssignmentCircuitBreaker
opened = record fresh { state = open_; failure_count = 3; last_state_change = 5_000_000_000 }

can_assign-recovers_example :
    let (asked, allowed) = can_assign opened 35_000_000_000 in
    (allowed ≡ true)
    × (allowed ≡ false → asked ≡ opened)
    × (allowed ≡ true → (record_successes 2 asked 35_000_000_000).state ≡ closed)
can_assign-recovers_example =
    can_assign-recovers opened 35_000_000_000 2 refl (omega arith) (omega arith) (omega arith)
