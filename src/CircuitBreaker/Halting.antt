-- ===== src/CircuitBreaker/Halting.antt =====
-- When the breaker of rust_core/src/circuit_breaker.rs halts trading, and when it lets go.
use arbees.Prelude.{
  ℕ, zero, suc, ◌+◌, ◌≤◌, ◌<◌, ◌^◌, ◌≡◌, ◌↔◌, String, true, false, ◌||◌, inl, inr, List, [], ◌∷◌,
  Bool-cases, some, arith,
}
use arbees.Prelude.Int.{ℤ, pos, ◌+ℤ◌, ◌-ℤ◌, ◌≤ℤ◌, nat_abs, nat_abs-+ℤ}
use arbees.Prelude.Word.{add_i64_exact, neg_i64_exact}
use arbees.CircuitBreaker.{
  CircuitBreaker, TripReason, trip, cooled_down, is_trading_allowed, check_limits, can_execute,
  record_success, record_error, record_pnl, returns, hangs, unhalted,
}

-- Trading is refused exactly when the breaker is enabled, halted, not locked and not cooled down, and
-- the call hangs exactly when it is enabled, halted and locked or cooled down.
is_trading_allowed_lem :
    (cb : CircuitBreaker) (now : ℕ)
    → ((is_trading_allowed cb now).1 ≡ returns false
        ↔ (cb.config.enabled ≡ true)
          × (cb.halted ≡ true)
          × (cb.locked ≡ false)
          × (cooled_down cb now ≡ false))
      × ((is_trading_allowed cb now).1 ≡ hangs
          ↔ (cb.config.enabled ≡ true)
            × (cb.halted ≡ true)
            × ((cb.locked || cooled_down cb now) ≡ true))
unfolding is_trading_allowed
is_trading_allowed_lem cb now = ground arith

-- After a trip at `t` of an enabled breaker that is not locked, every request before the cooldown has
-- passed is refused with the reason of the trip, whatever the market and the size, and leaves the
-- breaker alone; from `t + cooldown_duration` on, the request hangs and leaves the breaker locked and
-- not halted, with the time and the reason of the trip, so that the next request at any time is
-- answered by the position limits alone.
pub can_execute-trip :
    (cb : CircuitBreaker) (t now : ℕ) (r : TripReason) (m : String) (c : ℤ)
    → cb.config.enabled ≡ true
    → cb.locked ≡ false
    → t ≤ now
    → let (after, answer) = can_execute (trip cb t r) now m c in
      (now < t + cb.config.cooldown_duration → (after ≡ trip cb t r) × (answer ≡ returns (some r)))
      × (t + cb.config.cooldown_duration ≤ now
          → (answer ≡ hangs)
            × (after ≡ record (unhalted (trip cb t r)) { locked = true })
            × ((later : ℕ) (m' : String) (c' : ℤ)
                → can_execute after later m' c'
                  ≡ (after, returns (check_limits cb.config cb.positions m' c'))))
unfolding can_execute is_trading_allowed trip
can_execute-trip cb t now r m c e u h =
    (λ soon. ground arith, λ late. (ground arith, ground arith, λ later m' c'. ground arith))

-- `n` errors in a row, with no success between them.
pub record_errors : ℕ → CircuitBreaker → ℕ → CircuitBreaker
record_errors zero cb now = cb
record_errors (suc n) cb now = record_error (record_errors n cb now) now

-- What `n` errors do to a breaker that is not halted and has counted none.
abbrev pub CountedErrors : ℕ → CircuitBreaker → CircuitBreaker → Type 0
CountedErrors n cb after =
    (after.config ≡ cb.config)
    × (after.consecutive_errors ≡ n)
    × ((after.halted ≡ true) ↔ ((0 < n) × (cb.config.max_consecutive_errors ≤ n)))

-- From a breaker that is not halted and has counted no error, `n` errors in a row (fewer than
-- 2 ^ 32, so that the count is not cut) count `n`, and halt trading exactly when `n` is positive
-- and has reached the limit.
record_errors-halted :
    (n : ℕ) (cb : CircuitBreaker) (now : ℕ)
    → n < 2 ^ 32
    → cb.halted ≡ false
    → cb.consecutive_errors ≡ 0
    → CountedErrors n cb (record_errors n cb now)
unfolding record_errors record_error trip
record_errors-halted zero cb now b h e = ground arith
record_errors-halted (suc n) cb now b h e =
    ground (arith, record_errors-halted n cb now (omega arith) h e)

-- Every prefix of a list of results, added to `acc`, stays at or above `-limit`.
abbrev pub StaysAbove : ℤ → ℤ → List ℤ → Type 0
StaysAbove limit acc [] = Unit
StaysAbove limit acc (x ∷ xs) = (pos 0 -ℤ limit ≤ℤ acc +ℤ x) × StaysAbove limit (acc +ℤ x) xs

abbrev pub sum_abs : List ℤ → ℕ
sum_abs [] = 0
sum_abs (x ∷ xs) = nat_abs x + sum_abs xs

pub record_pnls : CircuitBreaker → ℕ → List ℤ → CircuitBreaker
record_pnls cb now [] = cb
record_pnls cb now (x ∷ xs) = record_pnls (record_pnl cb now x) now xs

-- One result, on numbers that fit.
record_pnl_exact :
    (cb : CircuitBreaker) (now : ℕ) (x : ℤ)
    → nat_abs cb.daily_pnl_cents + nat_abs x < 2 ^ 63
    → nat_abs cb.config.max_daily_loss_cents < 2 ^ 63
    → let after = record_pnl cb now x in
      (after.config ≡ cb.config)
      × (after.daily_pnl_cents ≡ cb.daily_pnl_cents +ℤ x)
      × ((after.halted ≡ false) ↔ (
          (cb.halted ≡ false)
          × (pos 0 -ℤ cb.config.max_daily_loss_cents ≤ℤ cb.daily_pnl_cents +ℤ x)))
unfolding record_pnl trip
record_pnl_exact cb now x h k =
    rw (add_i64_exact cb.daily_pnl_cents x h, neg_i64_exact cb.config.max_daily_loss_cents k)
      (ground arith)

record_pnls-keep_halted :
    (xs : List ℤ) (cb : CircuitBreaker) (now : ℕ)
    → cb.halted ≡ true
    → (record_pnls cb now xs).halted ≡ true
unfolding record_pnls record_pnl trip
record_pnls-keep_halted [] cb now h = h
record_pnls-keep_halted (x ∷ xs) cb now h =
    record_pnls-keep_halted xs (record_pnl cb now x) now (ground arith)

-- If every number fits, a breaker that is not halted stays so under a list of results exactly
-- when no prefix of them takes the daily result below the negated loss limit.
record_pnls-halted :
    (xs : List ℤ) (cb : CircuitBreaker) (now : ℕ)
    → nat_abs cb.daily_pnl_cents + sum_abs xs < 2 ^ 63
    → nat_abs cb.config.max_daily_loss_cents < 2 ^ 63
    → cb.halted ≡ false
    → ((record_pnls cb now xs).halted ≡ false)
      ↔ StaysAbove cb.config.max_daily_loss_cents cb.daily_pnl_cents xs
unfolding record_pnls record_pnl
record_pnls-halted [] cb now h k e = (λ _. tt, λ _. e)
record_pnls-halted (x ∷ xs) cb now h k e =
    let (same, sum, spared) = record_pnl_exact cb now x (omega arith) k in
    elim (Bool-cases (record_pnl cb now x).halted) [
      | inl t ↦ ground (arith, record_pnls-keep_halted xs (record_pnl cb now x) now t)
      | inr f ↦
          let fits : nat_abs (record_pnl cb now x).daily_pnl_cents + sum_abs xs < 2 ^ 63 =
            rw sum (omega (arith, nat_abs-+ℤ cb.daily_pnl_cents x)) in
          let rest = record_pnls-halted xs (record_pnl cb now x) now fits (rw same k) f in
          let rest' = rw (same, sum) at rest in (λ g. ((spared.0 f).1, rest'.0 g), λ g. rest'.1 g.1)
    ]

-- A loss booked by `record_success` is not held against the loss limit: at a loss for which
-- `record_pnl` halts a breaker that is not halted, `record_success` leaves trading allowed at
-- every later time.
pub record_success-skips_loss_limit :
    (cb : CircuitBreaker) (m : String) (now later : ℕ) (k p x : ℤ)
    → cb.halted ≡ false
    → (record_pnl cb now x).halted ≡ true
    → ((is_trading_allowed (record_success cb m k p x) later).1 ≡ returns true)
      × ((record_success cb m k p x).daily_pnl_cents ≡ (record_pnl cb now x).daily_pnl_cents)
unfolding record_success is_trading_allowed record_pnl trip
record_success-skips_loss_limit cb m now later k p x h l = ground arith
