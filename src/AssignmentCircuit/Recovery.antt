-- ===== src/AssignmentCircuit/Recovery.antt =====
-- How the `AssignmentCircuitBreaker` of services/orchestrator_rust/src/state.rs opens, and what
-- closes it again.
use arbees.Prelude.{
  ℕ, zero, suc, ◌+◌, ◌*◌, ◌≡◌, ◌<◌, ◌≤◌, ◌^◌, true, false, arith, leb, ltb, if◌then◌else◌, ◌&&◌,
  not,
}
use arbees.AssignmentCircuit.{
  CircuitState, closed, half_open, open_, AssignmentCircuitBreaker, can_assign, record_failures,
  record_successes, record_assignment_failure, record_assignment_success,
}

-- The state after `n` calls of a kind against the threshold for them.
abbrev pub reached : ℕ → ℕ → CircuitState → CircuitState → CircuitState
reached n threshold before after = if ltb 0 n && leb threshold n then after else before

abbrev pub AfterFailures : ℕ → AssignmentCircuitBreaker → AssignmentCircuitBreaker → Type 0
AfterFailures n b after =
    (after.config ≡ b.config)
    × (after.failure_count ≡ n)
    × (after.state ≡ reached n b.config.failure_threshold closed open_)

-- From closed with no failure counted, `n` failures (fewer than 2 ^ 32) with no success between
-- them count `n`, and open the circuit exactly when `n` is positive and has reached the threshold.
record_assignment_failures-state :
    (n : ℕ) (b : AssignmentCircuitBreaker) (now : ℕ)
    → n < 2 ^ 32
    → b.state ≡ closed
    → b.failure_count ≡ 0
    → AfterFailures n b (record_failures n b now)
unfolding record_failures record_assignment_failure
record_assignment_failures-state zero b now h s z = ground arith
record_assignment_failures-state (suc n) b now h s z =
    ground (arith, record_assignment_failures-state n b now (omega arith) s z)

CountedSuccesses : ℕ → AssignmentCircuitBreaker → AssignmentCircuitBreaker → Type 0
CountedSuccesses n b after =
    (after.config ≡ b.config)
    × (after.state ≡ reached n b.config.success_threshold half_open closed)
    × (after.state ≡ half_open → after.success_count ≡ n)

record_successes-count :
    (n : ℕ) (b : AssignmentCircuitBreaker) (now : ℕ)
    → n < 2 ^ 32
    → b.state ≡ half_open
    → b.success_count ≡ 0
    → CountedSuccesses n b (record_successes n b now)
unfolding record_successes record_assignment_success CountedSuccesses
record_successes-count zero b now h s z = ground arith
record_successes-count (suc n) b now h s z =
    ground (arith, record_successes-count n b now (omega arith) s z)

-- An open circuit lets an assignment through exactly when the whole seconds since the change of
-- state have reached the timeout, if the clock has not gone backwards; after that, `n` successes
-- (fewer than 2 ^ 32) close it exactly when `n` is positive and has reached the success threshold.
pub can_assign-recovers :
    (b : AssignmentCircuitBreaker) (now n : ℕ)
    → b.state ≡ open_
    → b.last_state_change ≤ now
    → now < 2 ^ 64
    → n < 2 ^ 32
    → let (asked, allowed) = can_assign b now in
      (allowed ≡ not (ltb now (b.last_state_change + b.config.half_open_timeout * 1_000_000_000)))
      × (allowed ≡ false → asked ≡ b)
      × (allowed ≡ true
          → (record_successes n asked now).state
            ≡ reached n b.config.success_threshold half_open closed)
unfolding can_assign CountedSuccesses
can_assign-recovers b now n s l fits h =
    let probed : AssignmentCircuitBreaker = record b {
      state = half_open;
      success_count = 0;
      failure_count = 0;
      last_state_change = now;
    } in
    ground (arith, record_successes-count n probed now h)

-- If the clock reads a second or more, and at most 2 ^ 32 seconds, before the change of state,
-- the elapsed time wraps, and a circuit whose timeout is at most 2 ^ 63 seconds lets the
-- assignment through at once.
can_assign-clock_back :
    (b : AssignmentCircuitBreaker) (now : ℕ)
    → b.state ≡ open_
    → now + 1_000_000_000 ≤ b.last_state_change
    → b.last_state_change ≤ now + 2 ^ 32 * 1_000_000_000
    → b.config.half_open_timeout ≤ 2 ^ 63
    → ((can_assign b now).1 ≡ true) × ((can_assign b now).0.state ≡ half_open)
unfolding can_assign
can_assign-clock_back b now s l u t = ground arith
