-- ===== src/CryptoRisk/Exposure.antt =====
-- What services/crypto_shard_rust/src/signals/risk.rs guarantees of an accepted trade.
use arbees.Prelude.{◌≡◌, ◌⊎◌, inl, inr, Option-cases, sym, true, false, some, arith}
use mathlib.Core.Path.{subst}
use arbees.Prelude.Int.{ℤ, ◌+ℤ◌, ◌-ℤ◌}
use arbees.Prelude.Float.{Float, fixed, zero_of}
use arbees.CryptoRisk.{
  next_u64, CryptoRiskChecker, Queries, Trade, accepted, get_asset_exposure,
  get_total_crypto_exposure, is_duplicate_trade, block, cap, scale, is_illiquid, check_duplicate,
  check_total, check_asset, validate_trade,
}

module _ {F : Type 0} (f : Float F) where
  -- What is left of a limit.
  abbrev pub left_of : F → F → F
  left_of limit current = f.max (f.sub limit current) (zero_of f)

  -- What rounding keeps of the order of numbers.
  pub record IsRounded : Type 0 where
    pub max_refl : (a : F) → f.le (f.max a (zero_of f)) (f.max a (zero_of f)) ≡ true
    pub le_trans : (a b c : F) → f.le a b ≡ true → f.le b c ≡ true → f.le a c ≡ true
    pub add_mono :
        (a b x limit : F)
        → f.le a b ≡ true
        → f.lt limit (f.add x b) ≡ false
        → f.lt limit (f.add x a) ≡ false
    pub cut_le :
        (limit x b : F)
        → f.lt limit (f.add x b) ≡ true
        → f.lt (left_of limit x) (f.ratio 10 1) ≡ false
        → f.le (left_of limit x) b ≡ true

  -- With this size the exposure does not exceed its limit, or the size is at most what is left.
  pub Keeps : F → F → F → Type 0
  Keeps limit current size =
      (f.lt limit (f.add current size) ≡ false) ⊎ (f.le size (left_of limit current) ≡ true)

  Keeps-le :
      (limit current a b : F)
      → IsRounded
      → f.le a b ≡ true
      → Keeps limit current b
      → Keeps limit current a
  unfolding Keeps
  Keeps-le limit current a b r l (inl within) = inl (r.add_mono a b current limit l within)
  Keeps-le limit current a b r l (inr left) = inr (r.le_trans a b (left_of limit current) l left)

  -- A size that a limit lets pass keeps it, and is the size before or not above it.
  cap_lem :
      (limit current size left : F)
      → IsRounded
      → cap f limit current size ≡ some left
      → Keeps limit current left × ((left ≡ size) ⊎ (f.le left size ≡ true))
  unfolding cap Keeps
  cap_lem limit current size left r e =
      ground (arith, r.max_refl (f.sub limit current), r.cut_le limit current size)

  -- The result of a trade that passed every check.
  pub record IsSafe (s : CryptoRiskChecker F) (q : Queries F) (t : Trade F) (size : F)
      : Type 0 where
    pub asset : F
    pub total : F
    pub asset_known : get_asset_exposure f q t.asset ≡ some asset
    pub total_known : get_total_crypto_exposure f q ≡ some total
    pub keeps_asset : Keeps s.max_asset_exposure asset size
    pub keeps_total : Keeps s.max_total_exposure total size
    pub is_new : is_duplicate_trade f q t.market_id ≡ some false
    pub has_edge : f.lt t.edge_pct s.min_edge_pct ≡ false
    pub is_liquid : is_illiquid f s t.liquidity ≡ false

  check_duplicate-accepted :
      (q : Queries F) (t : Trade F) (s : CryptoRiskChecker F) (size final : F)
      → (check_duplicate f q t s size).1 ≡ accepted final
      → (is_duplicate_trade f q t.market_id ≡ some false) × (size ≡ final)
  unfolding check_duplicate block
  check_duplicate-accepted q t s size final e = ground arith

  -- A size that passed from one check to the next.
  abbrev pub IsCut : F → F → Type 0
  IsCut left size = (left ≡ size) ⊎ (f.le left size ≡ true)

  -- The total exposure and the size that its limit leaves, when a trade passes.
  check_total-accepted :
      (q : Queries F) (t : Trade F) (s : CryptoRiskChecker F) (size final : F)
      → (check_total f q t s size).1 ≡ accepted final
      → (current : F) × (left : F) × (get_total_crypto_exposure f q ≡ some current)
        × (cap f s.max_total_exposure current size ≡ some left)
        × ((check_duplicate f q t s left).1 ≡ accepted final)
  unfolding check_total block
  check_total-accepted q t s size final e = elim (Option-cases (get_total_crypto_exposure f q)) [
    | inl failed ↦ ground (arith, failed)
    | inr (current, known) ↦ elim (Option-cases (cap f s.max_total_exposure current size)) [
      | inl reached ↦ ground (arith, known, reached)
      | inr (left, passes) ↦ (current, left, known, passes, ground (arith, known, passes))
    ]
  ]

  -- The exposure of the asset and the size its limit leaves, when a trade passes.
  check_asset-accepted :
      (q : Queries F) (t : Trade F) (s : CryptoRiskChecker F) (size final : F)
      → (check_asset f q t s size).1 ≡ accepted final
      → (current : F) × (left : F) × (get_asset_exposure f q t.asset ≡ some current)
        × (cap f s.max_asset_exposure current size ≡ some left)
        × ((check_total f q t s left).1 ≡ accepted final)
  unfolding check_asset block
  check_asset-accepted q t s size final e = elim (Option-cases (get_asset_exposure f q t.asset)) [
    | inl failed ↦ ground (arith, failed)
    | inr (current, known) ↦ elim (Option-cases (cap f s.max_asset_exposure current size)) [
      | inl reached ↦ ground (arith, known, reached)
      | inr (left, passes) ↦ (current, left, known, passes, ground (arith, known, passes))
    ]
  ]

  Keeps-cut :
      (limit current left size : F)
      → IsRounded
      → IsCut left size
      → Keeps limit current size
      → Keeps limit current left
  Keeps-cut limit current left size r (inl same) k = subst (Keeps limit current) (sym same) k
  Keeps-cut limit current left size r (inr less) k = Keeps-le limit current left size r less k

  scale-limits :
      (s : CryptoRiskChecker F) (factor size : F)
      → ((scale f s factor size).0.max_asset_exposure ≡ s.max_asset_exposure)
        × ((scale f s factor size).0.max_total_exposure ≡ s.max_total_exposure)
  unfolding scale
  scale-limits s factor size = ground arith

  passed :
      (s : CryptoRiskChecker F) (q : Queries F) (t : Trade F) (final : F)
      → (validate_trade f s q t).1 ≡ accepted final
      → (f.lt t.edge_pct s.min_edge_pct ≡ false) × (is_illiquid f s t.liquidity ≡ false)
  unfolding validate_trade block is_illiquid
  passed s q t final e = ground arith

  -- The size that reaches the limits; scaling changes only a counter of the checker.
  check_asset-of_validate :
      (s : CryptoRiskChecker F) (q : Queries F) (t : Trade F) (final : F)
      → (validate_trade f s q t).1 ≡ accepted final
      → (counted : CryptoRiskChecker F) × (size : F) × (counted.max_asset_exposure
          ≡ s.max_asset_exposure)
        × (counted.max_total_exposure ≡ s.max_total_exposure)
        × ((check_asset f q t counted size).1 ≡ accepted final)
  unfolding validate_trade block is_illiquid
  check_asset-of_validate s q t final e =
      let counted = record s { trades_validated = next_u64 s.trades_validated } in
      let size = f.min t.suggested_size s.max_position_size in
      let (asset, total) = scale-limits counted t.volatility_factor size in
      let (edge, liquid) = passed s q t final e in
      (
        (scale f counted t.volatility_factor size).0,
        (scale f counted t.volatility_factor size).1,
        asset,
        total,
        ground (arith, edge, liquid),
      )

  -- When a trade is accepted, both exposures were read and neither exceeds its limit with the size
  -- accepted, or that size is at most what is left of the limit; the market has no recent trade,
  -- the edge is not below its minimum and a known liquidity is not below its own. The order of
  -- numbers is kept by rounding.
  pub validate_trade-IsSafe :
      (s : CryptoRiskChecker F) (q : Queries F) (t : Trade F) (final : F)
      → IsRounded
      → (validate_trade f s q t).1 ≡ accepted final
      → IsSafe s q t final
  validate_trade-IsSafe s q t final r e =
      let (edge, liquid) = passed s q t final e in
      let (counted, size, same_asset, same_total, e1) = check_asset-of_validate s q t final e in
      let (asset, left, known, capped, e2) = check_asset-accepted q t counted size final e1 in
      let (total, rest, known_total, capped_total, e3) =
        check_total-accepted q t counted left final e2 in
      let (fresh, same) = check_duplicate-accepted q t counted rest final e3 in
      let (keeps, cut) = cap_lem counted.max_asset_exposure asset size left r capped in
      let (keeps_total, cut_total) =
        cap_lem counted.max_total_exposure total left rest r capped_total in
      record {
        asset = asset;
        total = total;
        asset_known = known;
        total_known = known_total;
        keeps_asset =
            subst (λ x. Keeps x asset final) same_asset
              (subst (Keeps counted.max_asset_exposure asset) same
                (Keeps-cut counted.max_asset_exposure asset rest left r cut_total keeps));
        keeps_total =
            subst (λ x. Keeps x total final) same_total
              (subst (Keeps counted.max_total_exposure total) same keeps_total);
        is_new = fresh;
        has_edge = edge;
        is_liquid = liquid;
      }

-- Fixed-point numbers keep the order.
add_mono_fixed :
    (a b x limit : ℤ)
    → fixed.le a b ≡ true
    → fixed.lt limit (fixed.add x b) ≡ false
    → fixed.lt limit (fixed.add x a) ≡ false
unfolding fixed ◌+ℤ◌
add_mono_fixed a b x limit l h = ground arith

pub fixed-IsRounded : IsRounded fixed
unfolding fixed ◌+ℤ◌ ◌-ℤ◌
fixed-IsRounded = record {
  max_refl = λ a. ground arith;
  le_trans = λ a b c h k. ground arith;
  add_mono = add_mono_fixed;
  cut_le = λ limit x b h k. ground arith;
}
