-- ===== src/CircuitBreaker/Traces.antt =====
-- What holds of a breaker of rust_core/src/circuit_breaker.rs after any sequence of its methods.
use arbees.Prelude.{◌≡◌, true, false, none, some, Option, List, [], ◌∷◌, arith}
use arbees.CircuitBreaker.{
  CircuitBreaker, Config, Op, ask, new, halt, is_trading_allowed, can_execute, record_success,
  reset, trip, record_error, record_pnl, reset_daily_pnl, clear_positions, apply, run,
}

abbrev IsSome {ℓ} : {A : Type ℓ} → Option A → Type 0
IsSome none = ⊥
IsSome (some _) = Unit

-- A halted or locked breaker knows when and why it was tripped; one that is neither knows neither.
pub record IsConsistent (cb : CircuitBreaker) : Type 0 where
  pub halted_knows : cb.halted ≡ true → IsSome cb.tripped_at × IsSome cb.trip_reason
  pub locked_knows : cb.locked ≡ true → IsSome cb.tripped_at × IsSome cb.trip_reason
  pub running_clear :
      cb.halted ≡ false → cb.locked ≡ false → (cb.tripped_at ≡ none) × (cb.trip_reason ≡ none)

apply-IsConsistent : (op : Op) (cb : CircuitBreaker) → IsConsistent cb → IsConsistent (apply op cb)
unfolding apply is_trading_allowed can_execute record_success record_error record_pnl halt
    reset_daily_pnl clear_positions reset trip
apply-IsConsistent (ask now) cb v = ground arith
apply-IsConsistent _ cb v = ground arith

run-IsConsistent :
    (ops : List Op) (cb : CircuitBreaker) → IsConsistent cb → IsConsistent (run ops cb)
unfolding run
run-IsConsistent [] cb v = v
run-IsConsistent (op ∷ ops) cb v = run-IsConsistent ops (apply op cb) (apply-IsConsistent op cb v)

-- Whatever methods are called on a new breaker, in whatever order and at whatever times, it holds the
-- time and the reason of a trip while it is halted and while a call that hangs holds its lock, and
-- holds neither otherwise.
pub run-new-IsConsistent : (c : Config) (ops : List Op) → IsConsistent (run ops (new c))
unfolding new
run-new-IsConsistent c ops = run-IsConsistent ops (new c) (ground arith)
