-- ===== src/ApiBreaker/Transitions.antt =====
-- The state machine of the `ApiCircuitBreaker` of rust_core/src/circuit_breaker.rs.
use arbees.Prelude.{ℕ, ◌+◌, ◌-◌, ◌≢◌, none, some, ◌≡◌, ◌<◌, ◌≤◌, ◌⊎◌, List, [], ◌∷◌, arith}
use arbees.Prelude.Word.{u32}
use arbees.ApiBreaker.{
  State, closed, open_, half_open, Config, ApiCircuitBreaker, new, is_available, record_success,
  record_failure, reset, Op, ask, succeed, fail, clear, apply, run,
}

-- The steps of the machine, those that stay included, each with what it takes.
pub data Edge (b : ApiCircuitBreaker) : Op → State → State → Type 0 where
  ask_closed : {now : ℕ} → Edge b (ask now) closed closed
  ask_half_open : {now : ℕ} → Edge b (ask now) half_open half_open
  wait :
      {now t : ℕ}
      → b.last_failure_time ≡ some t
      → now - t < b.config.recovery_timeout
      → Edge b (ask now) open_ open_
  probe :
      {now t : ℕ}
      → b.last_failure_time ≡ some t
      → b.config.recovery_timeout ≤ now - t
      → Edge b (ask now) open_ half_open
  probe_untimed : {now : ℕ} → b.last_failure_time ≡ none → Edge b (ask now) open_ half_open
  succeed_closed : Edge b succeed closed closed
  count :
      u32 (b.success_count + 1) < b.config.success_threshold → Edge b succeed half_open half_open
  recover : b.config.success_threshold ≤ u32 (b.success_count + 1) → Edge b succeed half_open closed
  late : Edge b succeed open_ closed
  tolerate :
      {now : ℕ}
      → u32 (b.failure_count + 1) < b.config.failure_threshold
      → Edge b (fail now) closed closed
  trip :
      {now : ℕ}
      → b.config.failure_threshold ≤ u32 (b.failure_count + 1)
      → Edge b (fail now) closed open_
  reopen : {now : ℕ} → Edge b (fail now) half_open open_
  fail_open : {now : ℕ} → Edge b (fail now) open_ open_
  reset_edge : {s : State} → Edge b clear s closed

-- Every method moves the breaker along a step of the machine: a failure opens it from closed exactly
-- when the failures reach the threshold, and always from half-open; a request while it is open makes
-- it half-open exactly when the recovery timeout has passed since the last failure or none is known;
-- a success closes it from half-open exactly when the successes reach theirs, and always from open;
-- a reset closes it; and no other call changes the state.
pub apply-Edge : (op : Op) (b : ApiCircuitBreaker) → Edge b op b.state (apply op b).state
unfolding apply is_available record_success record_failure reset
apply-Edge (ask now) b = grind (arith, ask_closed, ask_half_open, wait, probe, probe_untimed)
apply-Edge succeed b = grind (arith, succeed_closed, count, recover, late)
apply-Edge (fail now) b = grind (arith, tolerate, trip, reopen, fail_open)
apply-Edge clear b = reset_edge

-- What holds of a breaker between two calls: while closed its failures are below the threshold,
-- while half-open its successes are below theirs (or none was counted), and while open it knows
-- when the last failure was.
pub record IsSettled (b : ApiCircuitBreaker) : Type 0 where
  pub closed_below :
      b.state ≡ closed → (b.failure_count ≡ 0) ⊎ (b.failure_count < b.config.failure_threshold)
  pub half_open_below :
      b.state ≡ half_open → (b.success_count ≡ 0) ⊎ (b.success_count < b.config.success_threshold)
  pub open_knows : b.state ≡ open_ → b.last_failure_time ≢ none

apply-IsSettled : (op : Op) (b : ApiCircuitBreaker) → IsSettled b → IsSettled (apply op b)
unfolding apply is_available record_success record_failure reset
apply-IsSettled (ask now) b v = ground arith
apply-IsSettled succeed b v = ground arith
apply-IsSettled (fail now) b v = ground arith
apply-IsSettled clear b v = ground arith

run-IsSettled : (ops : List Op) (b : ApiCircuitBreaker) → IsSettled b → IsSettled (run ops b)
unfolding run
run-IsSettled [] b v = v
run-IsSettled (op ∷ ops) b v = run-IsSettled ops (apply op b) (apply-IsSettled op b v)

-- After any sequence of calls on a new breaker: while closed, it has counted no failure or fewer
-- than the threshold; while half-open, no success or fewer than the threshold for these; while
-- open, it holds the time of the last failure.
run-new-IsSettled : (c : Config) (ops : List Op) → IsSettled (run ops (new c))
unfolding new
run-new-IsSettled c ops = run-IsSettled ops (new c) (ground arith)
