-- ===== src/ArbScan/Batch.antt =====
-- The batch scan and the decoding of masks of rust_core/src/simd.rs.
use arbees.Prelude.{
  ℕ, suc, ◌+◌, ◌-◌, ◌≤◌, ◌<◌, ◌≡◌, Bool, true, Option, none, some, List, [], ◌∷◌, arith, leb, ◌==◌,
  if◌then◌else◌, get_elem?,
}
use arbees.Prelude.Int.{ℤ}
use arbees.ArbScan.{
  Prices, check_arbs_simd, scan_from, batch_scan_arbs, mask_of_tests, decode_arb_mask, push_if,
}

-- The mask that a result holds for a market.
abbrev pub mask_at : ℕ → List (ℕ × ℕ) → Option ℕ
mask_at i [] = none
mask_at i ((j, mask) ∷ found) = if i == j then some mask else mask_at i found

-- The indices rise, so no market stands twice.
abbrev pub IsRising : ℕ → List (ℕ × ℕ) → Type 0
IsRising low [] = Unit
IsRising low ((j, mask) ∷ found) = (low ≤ j) × IsRising (suc j) found

IsRising-weaken :
    (low k : ℕ) (found : List (ℕ × ℕ)) → low ≤ k → IsRising k found → IsRising low found
IsRising-weaken low k [] h r = tt
IsRising-weaken low k ((j, mask) ∷ found) h r = (omega arith, r.1)

get_elem?-here :
    (p : Prices) (markets : List Prices) (i j : ℕ)
    → i ≡ j
    → get_elem? (p ∷ markets) (j - i) ≡ some p
get_elem?-here p markets i j h = let first : j - i ≡ 0 = omega arith in rw first

get_elem?-later :
    (p : Prices) (markets : List Prices) (i j : ℕ)
    → i < j
    → get_elem? (p ∷ markets) (j - i) ≡ get_elem? markets (j - (i + 1))
get_elem?-later p markets i j h =
    let further : j - i ≡ suc (j - (i + 1)) = omega arith in rw further

module _ (cmp_lt : List ℤ → List ℤ → List ℤ) where
  -- What the scan must hold for a market, if there is one.
  abbrev pub expected : ℕ → Option Prices → Option ℕ
  expected threshold none = none
  expected threshold (some p) =
      let mask = check_arbs_simd cmp_lt p threshold in if mask == 0 then none else some mask

  scan_from-IsRising :
      (i : ℕ) (markets : List Prices) (threshold : ℕ)
      → IsRising i (scan_from cmp_lt i markets threshold)
  unfolding scan_from
  scan_from-IsRising i [] threshold = tt
  scan_from-IsRising i (p ∷ markets) threshold =
      let rest = scan_from cmp_lt (i + 1) markets threshold in
      let rising = scan_from-IsRising (i + 1) markets threshold in
      ground (
        arith,
        IsRising-weaken i (i + 1) rest (omega arith) rising,
        IsRising-weaken (suc i) (i + 1) rest (omega arith) rising,
      )

  mask_at-scan_from :
      (i j : ℕ) (markets : List Prices) (threshold : ℕ)
      → mask_at j (scan_from cmp_lt i markets threshold)
        ≡ (if leb i j then expected threshold (get_elem? markets (j - i)) else none)
  unfolding scan_from
  mask_at-scan_from i j [] threshold = ground arith
  mask_at-scan_from i j (p ∷ markets) threshold = ground (
    arith,
    get_elem?-here p markets i j,
    get_elem?-later p markets i j,
    mask_at-scan_from (i + 1) j markets threshold,
  )

  -- A batch scan holds, for each market of the list, its mask if that is not 0, and nothing else,
  -- with rising indices.
  batch_scan_arbs_lem :
      (markets : List Prices) (threshold : ℕ)
      → let found = batch_scan_arbs cmp_lt markets threshold in
        IsRising 0 found × ((i : ℕ) → mask_at i found ≡ expected threshold (get_elem? markets i))
  unfolding batch_scan_arbs
  batch_scan_arbs_lem markets threshold = (
    scan_from-IsRising 0 markets threshold,
    λ i.
        let whole : i - 0 ≡ i = omega arith in
        let reached : leb 0 i ≡ true = ground arith in
        rw (whole, reached) at (mask_at-scan_from 0 i markets threshold),
  )

-- Decoding the mask of four tests names the strategies that passed, in their order.
decode_arb_mask-mask_of_tests :
    (a b c d : Bool)
    → decode_arb_mask (mask_of_tests a b c d)
      ≡ push_if a "PolyYes+KalshiNo"
          (push_if b "KalshiYes+PolyNo" (push_if c "PolyOnly" (push_if d "KalshiOnly" [])))
unfolding decode_arb_mask mask_of_tests
decode_arb_mask-mask_of_tests a b c d = ground arith
