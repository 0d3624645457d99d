-- ===== src/ArbScan/Costs.antt =====
-- The masks of rust_core/src/simd.rs against the costs in whole cents.
use arbees.Prelude.{
  ℕ, zero, suc, ◌+◌, ◌^◌, ◌≤◌, ◌<◌, ◌≡◌, refl, ◌↔◌, Bool, true, some, List, ◌∷◌, arith, ltb,
  get_elem?, replicate, ◌==◌, if◌then◌else◌,
}
use arbees.Prelude.Int.{ℤ, pos, negsuc, ltb_ℤ, ◌-ℤ◌}
use arbees.Prelude.Bits.{bit}
use arbees.Orderbook.{kalshi_fee_cents}
use arbees.Orderbook.Packing.{kalshi_fee_cents_ceiling}
use arbees.Execution.{of_bits_i16, hundred_minus}
use arbees.ArbScan.{
  Prices, cost_0, cost_1, cost_2, cost_3, mask_of_tests, check_arbs_scalar, check_arbs_simd,
  lane_set, calculate_profit_cents,
}

-- What the code relies on in `wide`: the comparison answers lane by lane, with all ones where the
-- first number is less and with 0 elsewhere.
pub record IsCmpLt (cmp_lt : List ℤ → List ℤ → List ℤ) : Type 0 where
  pub lane :
      (xs ys : List ℤ) (i : ℕ) (a b : ℤ)
      → get_elem? xs i ≡ some a
      → get_elem? ys i ≡ some b
      → get_elem? (cmp_lt xs ys) i ≡ some (if ltb_ℤ a b then negsuc 0 else pos 0)

-- Prices are whole cents of a dollar.
pub record IsCents (p : Prices) : Type 0 where
  pub kalshi_yes_le : p.kalshi_yes ≤ 100
  pub kalshi_no_le : p.kalshi_no ≤ 100
  pub poly_yes_le : p.poly_yes ≤ 100
  pub poly_no_le : p.poly_no ≤ 100

-- The costs as sums that do not wrap.
abbrev pub exact_cost : Prices → ℕ → ℕ
exact_cost p i =
    if i == 0
    then p.poly_yes + p.kalshi_no + kalshi_fee_cents p.kalshi_no
    else if i == 1
    then p.kalshi_yes + kalshi_fee_cents p.kalshi_yes + p.poly_no
    else if i == 2
    then p.poly_yes + p.poly_no
    else p.kalshi_yes + kalshi_fee_cents p.kalshi_yes + p.kalshi_no + kalshi_fee_cents p.kalshi_no

fee_le : (p : ℕ) → p ≤ 100 → kalshi_fee_cents p ≤ 2
fee_le p h = ((kalshi_fee_cents_ceiling p).0 h).3

record IsExact (p : Prices) : Type 0 where
  exact_0 : cost_0 p ≡ exact_cost p 0
  exact_1 : cost_1 p ≡ exact_cost p 1
  exact_2 : cost_2 p ≡ exact_cost p 2
  exact_3 : cost_3 p ≡ exact_cost p 3

costs-IsExact : (p : Prices) → IsCents p → IsExact p
unfolding cost_0 cost_1 cost_2 cost_3
costs-IsExact p h =
    let yes_fee = fee_le p.kalshi_yes h.kalshi_yes_le in
    let no_fee = fee_le p.kalshi_no h.kalshi_no_le in
    record {
      exact_0 = omega arith;
      exact_1 = omega arith;
      exact_2 = omega arith;
      exact_3 = omega arith;
    }

costs_le : (p : Prices) (i : ℕ) → IsCents p → exact_cost p i ≤ 204
costs_le p i h =
    ground (arith, fee_le p.kalshi_yes h.kalshi_yes_le, fee_le p.kalshi_no h.kalshi_no_le)

abbrev number : Bool → ℕ
number b = if b then 1 else 0

mask_of_tests_bits :
    (a b c d : Bool)
    → let mask = mask_of_tests a b c d in
      (bit mask 0 ≡ number a)
      × (bit mask 1 ≡ number b)
      × (bit mask 2 ≡ number c)
      × (bit mask 3 ≡ number d)
unfolding mask_of_tests
mask_of_tests_bits a b c d = ground arith

-- On prices of at most 100 cents, bit `i` of the mask is set exactly when the cost of strategy
-- `i`, with its Kalshi fees and with no sum wrapping, is below the threshold.
pub check_arbs_scalar_bits :
    (p : Prices) (threshold : ℕ)
    → IsCents p
    → let mask = check_arbs_scalar p threshold in
      (bit mask 0 ≡ (if ltb (exact_cost p 0) threshold then 1 else 0))
      × (bit mask 1 ≡ (if ltb (exact_cost p 1) threshold then 1 else 0))
      × (bit mask 2 ≡ (if ltb (exact_cost p 2) threshold then 1 else 0))
      × (bit mask 3 ≡ (if ltb (exact_cost p 3) threshold then 1 else 0))
unfolding check_arbs_scalar
check_arbs_scalar_bits p threshold h =
    let e = costs-IsExact p h in
    rw (e.exact_0, e.exact_1, e.exact_2, e.exact_3)
      (mask_of_tests_bits (ltb (exact_cost p 0) threshold) (ltb (exact_cost p 1) threshold)
        (ltb (exact_cost p 2) threshold) (ltb (exact_cost p 3) threshold))

i16_lt : (a b : ℕ) → a < 2 ^ 15 → b < 2 ^ 15 → ltb_ℤ (of_bits_i16 a) (of_bits_i16 b) ≡ ltb a b
i16_lt a b h k = ground arith

module _ (cmp_lt : List ℤ → List ℤ → List ℤ) (is : IsCmpLt cmp_lt) where
  lane_set_lem :
      (xs ys : List ℤ) (i : ℕ) (a b : ℤ)
      → get_elem? xs i ≡ some a
      → get_elem? ys i ≡ some b
      → lane_set (cmp_lt xs ys) i ≡ ltb_ℤ a b
  lane_set_lem xs ys i a b h k = rw (is.lane xs ys i a b h k, lane_set) (ground arith)

  -- With a lane-wise comparison the vector version gives the mask of the scalar one, on prices of
  -- at most 100 cents and a threshold below 2 ^ 15.
  pub check_arbs_simd-eq-scalar :
      (p : Prices) (threshold : ℕ)
      → IsCents p
      → threshold < 2 ^ 15
      → check_arbs_simd cmp_lt p threshold ≡ check_arbs_scalar p threshold
  unfolding check_arbs_simd check_arbs_scalar
  check_arbs_simd-eq-scalar p threshold h t =
      let e = costs-IsExact p h in
      let c = of_bits_i16 threshold in
      let costs =
        of_bits_i16 (cost_0 p)
        ∷ of_bits_i16 (cost_1 p)
        ∷ of_bits_i16 (cost_2 p)
        ∷ of_bits_i16 (cost_3 p)
        ∷ replicate 4 (pos 32767) in
      let cs = replicate 8 c in
      rw (
        lane_set_lem costs cs 0 (of_bits_i16 (cost_0 p)) c refl refl,
        lane_set_lem costs cs 1 (of_bits_i16 (cost_1 p)) c refl refl,
        lane_set_lem costs cs 2 (of_bits_i16 (cost_2 p)) c refl refl,
        lane_set_lem costs cs 3 (of_bits_i16 (cost_3 p)) c refl refl,
        i16_lt (cost_0 p) threshold (omega (arith, e.exact_0, costs_le p 0 h)) t,
        i16_lt (cost_1 p) threshold (omega (arith, e.exact_1, costs_le p 1 h)) t,
        i16_lt (cost_2 p) threshold (omega (arith, e.exact_2, costs_le p 2 h)) t,
        i16_lt (cost_3 p) threshold (omega (arith, e.exact_3, costs_le p 3 h)) t,
      )

profit_of_cost :
    (c : ℕ)
    → c ≤ 204
    → (hundred_minus c ≡ pos 100 -ℤ pos c)
      × ((ltb_ℤ (pos 0) (hundred_minus c) ≡ true) ↔ (number (ltb c 100) ≡ 1))
unfolding ◌-ℤ◌
profit_of_cost c h = ground arith

-- On prices of at most 100 cents, the profit of strategy `i` is 100 less its exact cost, for
-- `i` from 0 to 3, and it is positive exactly when bit `i` of the mask at the threshold of 100
-- cents is set.
calculate_profit_cents_lem :
    (p : Prices) (i : ℕ)
    → IsCents p
    → i < 4
    → (calculate_profit_cents p (2 ^ i) ≡ pos 100 -ℤ pos (exact_cost p i))
      × ((ltb_ℤ (pos 0) (calculate_profit_cents p (2 ^ i)) ≡ true)
          ↔ (bit (check_arbs_scalar p 100) i ≡ 1))
unfolding calculate_profit_cents
calculate_profit_cents_lem p zero h k =
    rw ((costs-IsExact p h).exact_0, (check_arbs_scalar_bits p 100 h).0)
      (profit_of_cost (exact_cost p 0) (costs_le p 0 h))
calculate_profit_cents_lem p (suc zero) h k =
    rw ((costs-IsExact p h).exact_1, (check_arbs_scalar_bits p 100 h).1)
      (profit_of_cost (exact_cost p 1) (costs_le p 1 h))
calculate_profit_cents_lem p (suc (suc zero)) h k =
    rw ((costs-IsExact p h).exact_2, (check_arbs_scalar_bits p 100 h).2)
      (profit_of_cost (exact_cost p 2) (costs_le p 2 h))
calculate_profit_cents_lem p (suc (suc (suc zero))) h k =
    rw ((costs-IsExact p h).exact_3, (check_arbs_scalar_bits p 100 h).3)
      (profit_of_cost (exact_cost p 3) (costs_le p 3 h))
calculate_profit_cents_lem p (suc (suc (suc (suc i)))) h k = absurd (omega arith)
