-- ===== src/CircuitBreaker/Tests.antt =====
-- The breaker of rust_core/src/circuit_breaker.rs at concrete inputs.
use arbees.Prelude.{◌≡◌, ◌<◌, ◌≤◌, ◌+◌, ℕ, String, refl, true, false, none, some, [], ◌∷◌, arith}
use arbees.Prelude.Int.{ℤ, pos, negsuc, ◌+ℤ◌, ◌-ℤ◌}
use arbees.Prelude.Dict.{lookup}
use arbees.Prelude.Word.{add_i64, wrap_i64, abs_i64, neg_i64}
use arbees.CircuitBreaker.{
  returns, hangs, unhalted, CircuitBreaker, manual_halt, max_position_per_market, default_config,
  new, trip, total, market_total, sum_totals, is_trading_allowed, check_limits, can_execute,
  record_success, record_pnl, ask, fail, reset_now, run,
}
use arbees.CircuitBreaker.Limits.{IsWithin, can_execute-IsWithin}
use arbees.CircuitBreaker.Halting.{can_execute-trip, record_success-skips_loss_limit}
use arbees.CircuitBreaker.Traces.{IsConsistent, run-new-IsConsistent}

abbrev fresh : CircuitBreaker
fresh = record {
  config = default_config;
  halted = false;
  consecutive_errors = 0;
  daily_pnl_cents = pos 0;
  positions =
      ("NBA-1", record { kalshi_contracts = pos 40_000; poly_contracts = negsuc 4999 }) ∷ [];
  tripped_at = none;
  trip_reason = none;
  locked = false;
}

-- 45,000 contracts and 6,000 more are beyond the limit of 50,000.
refuses_too_many :
    (can_execute fresh 7 "NBA-1" (negsuc 5999)).1
    ≡ returns (some (max_position_per_market "NBA-1" (pos 45_000) (pos 50_000)))
unfolding can_execute is_trading_allowed check_limits market_total lookup total add_i64 wrap_i64
    ◌+ℤ◌ abs_i64 neg_i64 ◌-ℤ◌
refuses_too_many = refl

abbrev after : CircuitBreaker
after = (can_execute fresh 7 "NBA-1" (pos 2_000)).0

can_execute-trip_example :
    let (later, answer) =
      can_execute (trip fresh 100 manual_halt) 300_000_000_100 "NFL-3" (pos 1) in
    (300_000_000_100 < 100 + fresh.config.cooldown_duration
      → (later ≡ trip fresh 100 manual_halt) × (answer ≡ returns (some manual_halt)))
    × (100 + fresh.config.cooldown_duration ≤ 300_000_000_100
        → (answer ≡ hangs)
          × (later ≡ record (unhalted (trip fresh 100 manual_halt)) { locked = true })
          × ((t : ℕ) (m' : String) (c' : ℤ)
              → can_execute later t m' c'
                ≡ (later, returns (check_limits fresh.config fresh.positions m' c'))))
can_execute-trip_example =
    can_execute-trip fresh 100 300_000_000_100 manual_halt "NFL-3" (pos 1) refl refl (omega arith)

record_success-skips_loss_limit_example :
    ((is_trading_allowed (record_success fresh "NBA-1" (pos 1) (pos 1) (negsuc 60_000)) 9).1
      ≡ returns true)
    × ((record_success fresh "NBA-1" (pos 1) (pos 1) (negsuc 60_000)).daily_pnl_cents
        ≡ (record_pnl fresh 8 (negsuc 60_000)).daily_pnl_cents)
unfolding record_pnl trip add_i64 wrap_i64 ◌+ℤ◌ neg_i64 ◌-ℤ◌
record_success-skips_loss_limit_example =
    record_success-skips_loss_limit fresh "NBA-1" 8 9 (pos 1) (pos 1) (negsuc 60_000) refl refl

can_execute-IsWithin_example :
    IsWithin default_config
      (record_success fresh "NBA-1" (pos 1_000) (negsuc 999) (pos 5)).positions
unfolding can_execute is_trading_allowed check_limits market_total sum_totals lookup total add_i64
    wrap_i64 ◌+ℤ◌ abs_i64 neg_i64 ◌-ℤ◌
can_execute-IsWithin_example =
    can_execute-IsWithin fresh fresh 7 "NBA-1" (pos 2_000) (pos 1_000) (negsuc 999) (pos 5) refl
      (omega arith) (omega arith) (omega arith) (omega arith) refl

run-new-IsConsistent_example :
    IsConsistent (
      run
        (fail 1 ∷ fail 2 ∷ fail 3 ∷ fail 4 ∷ fail 5 ∷ ask 6 ∷ reset_now ∷ [])
        (new default_config))
run-new-IsConsistent_example =
    run-new-IsConsistent default_config
      (fail 1 ∷ fail 2 ∷ fail 3 ∷ fail 4 ∷ fail 5 ∷ ask 6 ∷ reset_now ∷ [])
