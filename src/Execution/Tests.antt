-- ===== src/Execution/Tests.antt =====
-- The tracker and the requests of rust_core/src/execution.rs at concrete inputs.
use arbees.Prelude.{◌<◌, ◌+◌, ◌*◌, ◌≤◌, ◌≡◌, refl, true, false, some, List, [], ◌∷◌, arith}
use arbees.Prelude.Int.{pos, ◌-ℤ◌, ◌*ℤ◌}
use arbees.Prelude.BitPlaces.{ones}
use arbees.Execution.{
  new, FastExecutionRequest, poly_only, kalshi_only, from_u8, to_u8, profit_cents,
  expected_profit_cents, max_contracts, estimated_fee_cents, try_acquire, is_in_flight,
  in_flight_count, Op, acquire, free, run, apply, release,
}
use arbees.Execution.Exclusion.{run_set, run-refines_set, grants, try_acquire_exclusive}
use arbees.Execution.Tracking.{IsTracker}
use arbees.Execution.Profit.{from_u8-to_u8, profit_cents_exact}

abbrev calls : List Op
calls = acquire 100 ∷ acquire 100 ∷ free 100 ∷ acquire 100 ∷ acquire 600 ∷ []

answers : (run calls new).1 ≡ true ∷ false ∷ false ∷ true ∷ false ∷ []
unfolding run apply try_acquire release
answers = refl

two_in_flight : in_flight_count (run (acquire 3 ∷ acquire 500 ∷ acquire 3 ∷ []) new).0 ≡ 2
unfolding run apply try_acquire in_flight_count ones
two_in_flight = refl

run-refines_set_example :
    let (end, given) = run calls new in
    let (s, expected) = run_set calls (is_in_flight new) in
    IsTracker end × (is_in_flight end ≡ s) × (given ≡ expected)
run-refines_set_example = run-refines_set calls new (omega arith)

try_acquire_exclusive_example :
    let two : List Op = acquire 7 ∷ free 8 ∷ acquire 7 ∷ [] in
    (grants 7 two (run two new).1 ≤ 1)
    × (is_in_flight new 7 ≡ true → grants 7 two (run two new).1 ≡ 0)
try_acquire_exclusive_example =
    try_acquire_exclusive 7 (acquire 7 ∷ free 8 ∷ acquire 7 ∷ []) new (omega arith) (omega arith)

from_u8-to_u8_example :
    (from_u8 (to_u8 poly_only) ≡ some poly_only)
    × (from_u8 2 ≡ some poly_only → 2 ≡ to_u8 poly_only)
from_u8-to_u8_example = from_u8-to_u8 poly_only 2

abbrev request : FastExecutionRequest
request = record {
  market_id = 7;
  yes_price = 40;
  no_price = 50;
  yes_size = 5_050;
  no_size = 12_000;
  arb_type = kalshi_only;
  detected_ns = 0;
}

profit_cents_exact_example :
    (profit_cents request ≡ pos 100 -ℤ pos (90 + estimated_fee_cents request))
    × (90 + estimated_fee_cents request ≤ 204)
    × (expected_profit_cents request
        ≡ (pos 100 -ℤ pos (90 + estimated_fee_cents request)) *ℤ pos (max_contracts request))
    × (max_contracts request * 100 ≤ 5_050)
    × (5_050 < (max_contracts request + 1) * 100)
    × (max_contracts request ≤ 655)
profit_cents_exact_example = profit_cents_exact request (omega arith) (omega arith) (omega arith)
