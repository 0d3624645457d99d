-- ===== src/Execution/Profit.antt =====
-- The profit of a `FastExecutionRequest` of rust_core/src/execution.rs, and its agreement with
-- the scan of rust_core/src/simd.rs.
use arbees.Prelude.{ℕ, ◌+◌, ◌*◌, ◌^◌, ◌≤◌, ◌<◌, ◌≡◌, refl, arith, some, min}
use arbees.Prelude.Int.{pos, ◌-ℤ◌, ◌*ℤ◌}
use arbees.Orderbook.Packing.{kalshi_fee_cents_ceiling}
use arbees.Execution.{
  ArbType, poly_yes_kalshi_no, from_u8, to_u8, FastExecutionRequest, hundred_minus, cost_of,
  profit_cents, estimated_fee_cents, max_contracts, expected_profit_cents,
}

-- The discriminant of a strategy leads back to it, and no number from 4 on is one.
pub from_u8-to_u8 :
    (a : ArbType) (n : ℕ) → (from_u8 (to_u8 a) ≡ some a) × (from_u8 n ≡ some a → n ≡ to_u8 a)
unfolding from_u8 to_u8
from_u8-to_u8 poly_yes_kalshi_no n = ground arith
from_u8-to_u8 _ n = ground arith

abbrev exact_cost_of : FastExecutionRequest → ℕ
exact_cost_of r = r.yes_price + r.no_price + estimated_fee_cents r

cost_of_exact :
    (r : FastExecutionRequest)
    → r.yes_price ≤ 100
    → r.no_price ≤ 100
    → (cost_of r.arb_type r ≡ exact_cost_of r) × (exact_cost_of r ≤ 204)
unfolding cost_of estimated_fee_cents
cost_of_exact r y n = ground (
  arith,
  ((kalshi_fee_cents_ceiling r.yes_price).0 y).3,
  ((kalshi_fee_cents_ceiling r.no_price).0 n).3,
)

hundred_minus_exact : (c : ℕ) → c ≤ 204 → hundred_minus c ≡ pos 100 -ℤ pos c
unfolding ◌-ℤ◌
hundred_minus_exact c h = ground arith

-- On prices of at most 100 cents the profit per contract is 100 cents less both prices and the
-- estimated fee, a cost of at most 204 cents, with nothing wrapping; the expected profit
-- is that for every whole contract that both sides can fill, the greatest number of contracts of 100
-- that is within both sizes, which is at most 655 if sizes have 16 bits.
pub profit_cents_exact :
    (r : FastExecutionRequest)
    → r.yes_price ≤ 100
    → r.no_price ≤ 100
    → r.yes_size < 2 ^ 16
    → let cost = r.yes_price + r.no_price + estimated_fee_cents r in
      (profit_cents r ≡ pos 100 -ℤ pos cost)
      × (cost ≤ 204)
      × (expected_profit_cents r ≡ (pos 100 -ℤ pos cost) *ℤ pos (max_contracts r))
      × (max_contracts r * 100 ≤ min r.yes_size r.no_size)
      × (min r.yes_size r.no_size < (max_contracts r + 1) * 100)
      × (max_contracts r ≤ 655)
unfolding profit_cents expected_profit_cents max_contracts
profit_cents_exact r y n s =
    let (cost, small) = cost_of_exact r y n in
    let profit = hundred_minus_exact (exact_cost_of r) small in
    rw (cost, profit) (refl, small, refl, omega arith, omega arith, omega arith)
