-- ===== src/ArbScan/Tests.antt =====
-- The scan of rust_core/src/simd.rs at concrete inputs.
use arbees.Prelude.{ℕ, zero, suc, ◌≡◌, refl, some, List, [], ◌∷◌, arith, get_elem?, if◌then◌else◌}
use arbees.Prelude.Int.{ℤ, pos, negsuc, ltb_ℤ}
use arbees.Prelude.Bits.{bit}
use arbees.Orderbook.{kalshi_fee_cents}
use arbees.ArbScan.{
  Prices, check_arbs_scalar, check_arbs_simd, mask_of_tests, cost_0, cost_1, cost_2, cost_3,
}
use arbees.ArbScan.Costs.{IsCmpLt, check_arbs_scalar_bits, check_arbs_simd-eq-scalar}

-- A lane-wise comparison.
abbrev lanes : List ℤ → List ℤ → List ℤ
lanes [] ys = []
lanes (x ∷ xs) [] = []
lanes (x ∷ xs) (y ∷ ys) = (if ltb_ℤ x y then negsuc 0 else pos 0) ∷ lanes xs ys

lanes_lane :
    (xs ys : List ℤ) (i : ℕ) (a b : ℤ)
    → get_elem? xs i ≡ some a
    → get_elem? ys i ≡ some b
    → get_elem? (lanes xs ys) i ≡ some (if ltb_ℤ a b then negsuc 0 else pos 0)
lanes_lane [] ys i a b h k = cc
lanes_lane (x ∷ xs) [] i a b h k = cc
lanes_lane (x ∷ xs) (y ∷ ys) zero a b h k = cc
lanes_lane (x ∷ xs) (y ∷ ys) (suc i) a b h k = lanes_lane xs ys i a b h k

lanes-IsCmpLt : IsCmpLt lanes
lanes-IsCmpLt = record { lane = lanes_lane }

abbrev prices : Prices
prices = record { kalshi_yes = 45; kalshi_no = 52; poly_yes = 44; poly_no = 57 }

one_strategy : check_arbs_scalar prices 100 ≡ 1
unfolding check_arbs_scalar mask_of_tests cost_0 cost_1 cost_2 cost_3 kalshi_fee_cents
one_strategy = refl

check_arbs_scalar_bits_example :
    let mask = check_arbs_scalar prices 100 in
    (bit mask 0 ≡ 1) × (bit mask 1 ≡ 0) × (bit mask 2 ≡ 0) × (bit mask 3 ≡ 0)
unfolding kalshi_fee_cents
check_arbs_scalar_bits_example = check_arbs_scalar_bits prices 100 (omega arith)

check_arbs_simd-eq-scalar_example : check_arbs_simd lanes prices 100 ≡ check_arbs_scalar prices 100
check_arbs_simd-eq-scalar_example =
    check_arbs_simd-eq-scalar lanes lanes-IsCmpLt prices 100 (omega arith) (omega arith)
