-- ===== src/ArbScan.antt =====
-- rust_core/src/simd.rs: the scan of two order books for arbitrage. Prices, thresholds and masks
-- are machine numbers, with the 16-bit sums written out. The vector comparison of the `wide`
-- crate, which the default build uses, is a parameter.
pub mod Costs
pub mod Batch
mod Tests
use Prim.Native.Nat.{bit_and, bit_or}
use arbees.Prelude.{
  ℕ, ◌+◌, ◌-◌, ◌^◌, Bool, true, false, not, Option, none, some, List, [], ◌∷◌, String, ltb, ◌==◌,
  if◌then◌else◌, get_elem?, replicate,
}
use arbees.Prelude.Int.{ℤ, pos, negsuc}
use arbees.Orderbook.{kalshi_fee_cents}
use arbees.Execution.{add_u16, of_bits_i16, hundred_minus}

abbrev pub arb_poly_yes_kalshi_no : ℕ
arb_poly_yes_kalshi_no = 1

abbrev pub arb_kalshi_yes_poly_no : ℕ
arb_kalshi_yes_poly_no = 2

abbrev pub arb_poly_only : ℕ
arb_poly_only = 4

abbrev pub arb_kalshi_only : ℕ
arb_kalshi_only = 8

-- `(kalshi_yes, kalshi_no, poly_yes, poly_no)`, in cents.
pub record Prices : Type 0 where
  pub kalshi_yes : ℕ
  pub kalshi_no : ℕ
  pub poly_yes : ℕ
  pub poly_no : ℕ

-- The four costs in the order of the mask, with the fees of the Kalshi legs.
pub cost_0 : Prices → ℕ
cost_0 p = add_u16 (add_u16 p.poly_yes p.kalshi_no) (kalshi_fee_cents p.kalshi_no)

pub cost_1 : Prices → ℕ
cost_1 p = add_u16 (add_u16 p.kalshi_yes (kalshi_fee_cents p.kalshi_yes)) p.poly_no

pub cost_2 : Prices → ℕ
cost_2 p = add_u16 p.poly_yes p.poly_no

pub cost_3 : Prices → ℕ
cost_3 p =
    add_u16 (add_u16 (add_u16 p.kalshi_yes (kalshi_fee_cents p.kalshi_yes)) p.kalshi_no)
      (kalshi_fee_cents p.kalshi_no)

-- `if test { mask |= flag }`.
abbrev pub or_if : Bool → ℕ → ℕ → ℕ
or_if test flag mask = if test then bit_or mask flag else mask

-- The mask of four tests, set one after the other.
pub mask_of_tests : Bool → Bool → Bool → Bool → ℕ
mask_of_tests a b c d =
    or_if d arb_kalshi_only
      (or_if c arb_poly_only (or_if b arb_kalshi_yes_poly_no (or_if a arb_poly_yes_kalshi_no 0)))

pub check_arbs_scalar : Prices → ℕ → ℕ
check_arbs_scalar p threshold =
    mask_of_tests (ltb (cost_0 p) threshold) (ltb (cost_1 p) threshold) (ltb (cost_2 p) threshold)
      (ltb (cost_3 p) threshold)

abbrev not_zero : ℤ → Bool
not_zero (pos n) = not (n == 0)
not_zero (negsuc n) = true

-- `results[i] != 0`.
abbrev pub lane_set : List ℤ → ℕ → Bool
lane_set results i = elim (get_elem? results i) [ none ↦ false | some r ↦ not_zero r ]

module _ (cmp_lt : List ℤ → List ℤ → List ℤ) where
  pub check_arbs_simd : Prices → ℕ → ℕ
  check_arbs_simd p threshold =
      let costs =
        of_bits_i16 (cost_0 p)
        ∷ of_bits_i16 (cost_1 p)
        ∷ of_bits_i16 (cost_2 p)
        ∷ of_bits_i16 (cost_3 p)
        ∷ replicate 4 (pos 32767) in
      let results = cmp_lt costs (replicate 8 (of_bits_i16 threshold)) in
      mask_of_tests (lane_set results 0) (lane_set results 1) (lane_set results 2)
        (lane_set results 3)

  -- The markets from index `i` on, with the masks that are not 0.
  pub scan_from : ℕ → List Prices → ℕ → List (ℕ × ℕ)
  scan_from i [] threshold = []
  scan_from i (p ∷ markets) threshold =
      let mask = check_arbs_simd p threshold in
      let rest = scan_from (i + 1) markets threshold in if mask == 0 then rest else (i, mask) ∷ rest

  pub batch_scan_arbs : List Prices → ℕ → List (ℕ × ℕ)
  batch_scan_arbs markets threshold = scan_from 0 markets threshold

pub calculate_profit_cents : Prices → ℕ → ℤ
calculate_profit_cents p arb_type =
    if arb_type == arb_poly_yes_kalshi_no
    then hundred_minus (cost_0 p)
    else if arb_type == arb_kalshi_yes_poly_no
    then hundred_minus (cost_1 p)
    else if arb_type == arb_poly_only
    then hundred_minus (cost_2 p)
    else if arb_type == arb_kalshi_only
    then hundred_minus (cost_3 p)
    else pos 0

abbrev pub push_if : Bool → String → List String → List String
push_if test name names = if test then name ∷ names else names

pub decode_arb_mask : ℕ → List String
decode_arb_mask mask = push_if (not (bit_and mask arb_poly_yes_kalshi_no == 0)) "PolyYes+KalshiNo" (
    push_if (not (bit_and mask arb_kalshi_yes_poly_no == 0)) "KalshiYes+PolyNo" (
      push_if (not (bit_and mask arb_poly_only == 0)) "PolyOnly"
        (push_if (not (bit_and mask arb_kalshi_only == 0)) "KalshiOnly" [])))
