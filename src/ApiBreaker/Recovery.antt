-- ===== src/ApiBreaker/Recovery.antt =====
-- How the `ApiCircuitBreaker` of rust_core/src/circuit_breaker.rs opens and recovers over runs of
-- failures and successes.
use arbees.Prelude.{
  ◌&&◌, ℕ, zero, suc, ◌+◌, ◌≡◌, ◌<◌, ◌≤◌, ◌^◌, true, false, some, arith, leb, ltb, if◌then◌else◌,
  not,
}
use arbees.ApiBreaker.{
  State, closed, open_, half_open, ApiCircuitBreaker, is_available, record_success, record_failure,
  record_successes, record_failures,
}

-- The state after `n` failures or successes against a threshold that one call must reach.
abbrev pub reached : ℕ → ℕ → State → State → State
reached n threshold before after = if ltb 0 n && leb threshold n then after else before

abbrev pub AfterFailures : ℕ → ApiCircuitBreaker → ApiCircuitBreaker → Type 0
AfterFailures n b after =
    (after.config ≡ b.config)
    × (after.failure_count ≡ n)
    × (after.state ≡ reached n b.config.failure_threshold closed open_)

-- From closed with no failure counted, `n` failures in a row (fewer than 2 ^ 32) count `n`, and
-- open the circuit exactly when `n` is positive and has reached the threshold.
record_failures-state :
    (n : ℕ) (b : ApiCircuitBreaker) (now : ℕ)
    → n < 2 ^ 32
    → b.state ≡ closed
    → b.failure_count ≡ 0
    → AfterFailures n b (record_failures n b now)
unfolding record_failures record_failure
record_failures-state zero b now h s z = ground arith
record_failures-state (suc n) b now h s z =
    ground (arith, record_failures-state n b now (omega arith) s z)

abbrev pub AfterSuccesses : ℕ → ApiCircuitBreaker → ApiCircuitBreaker → Type 0
AfterSuccesses n b after =
    (after.config ≡ b.config)
    × (after.state ≡ reached n b.config.success_threshold half_open closed)

-- What the induction needs besides: the count, for as long as the breaker is half-open.
CountedSuccesses : ℕ → ApiCircuitBreaker → ApiCircuitBreaker → Type 0
CountedSuccesses n b after =
    AfterSuccesses n b after × (after.state ≡ half_open → after.success_count ≡ n)

record_successes-count :
    (n : ℕ) (b : ApiCircuitBreaker)
    → n < 2 ^ 32
    → b.state ≡ half_open
    → b.success_count ≡ 0
    → CountedSuccesses n b (record_successes n b)
unfolding record_successes record_success CountedSuccesses
record_successes-count zero b h s z = ground arith
record_successes-count (suc n) b h s z =
    ground (arith, record_successes-count n b (omega arith) s z)

-- An open breaker whose last failure was at `t` answers a request at `now` by the recovery
-- timeout alone; and once it has let one through, `n` successes (fewer than 2 ^ 32) close it
-- exactly when `n` is positive and has reached the success threshold, and leave it half-open
-- otherwise.
pub is_available-recovers :
    (b : ApiCircuitBreaker) (t now n : ℕ)
    → b.state ≡ open_
    → b.last_failure_time ≡ some t
    → t ≤ now
    → n < 2 ^ 32
    → let (asked, allowed) = is_available b now in
      (allowed ≡ not (ltb now (t + b.config.recovery_timeout)))
      × (allowed ≡ false → asked ≡ b)
      × (allowed ≡ true → AfterSuccesses n b (record_successes n asked))
unfolding is_available CountedSuccesses
is_available-recovers b t now n s l h k =
    let probed : ApiCircuitBreaker = record b { state = half_open; success_count = 0 } in
    ground (arith, record_successes-count n probed k)

-- In half-open any failure opens the circuit again, and it stays closed to requests for the whole
-- recovery timeout from that failure on.
record_failure-half_open :
    (b : ApiCircuitBreaker) (t now : ℕ)
    → b.state ≡ half_open
    → t ≤ now
    → now < t + b.config.recovery_timeout
    → is_available (record_failure b t) now ≡ (record_failure b t, false)
unfolding is_available record_failure
record_failure-half_open b t now s h k = ground arith

-- A success that arrives while the circuit is open closes it at once: requests are allowed at
-- every time, with no probe and however high the success threshold.
record_success-while_open :
    (b : ApiCircuitBreaker) (now : ℕ)
    → b.state ≡ open_
    → ((record_success b).state ≡ closed) × ((is_available (record_success b) now).1 ≡ true)
unfolding is_available record_success
record_success-while_open b now s = ground arith
