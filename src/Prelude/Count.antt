-- ===== src/Prelude/Count.antt =====
-- The number of items of a list that pass a Boolean test.
use Prim.Native.Nat.{ℕ, zero, suc, ◌*◌, ◌+◌, ◌-◌, ◌≤◌, ◌<◌}
use mathlib.Core.Path.{◌≡◌, refl}
use mathlib.Core.Bool.{Bool, true, ◌&&◌}
use mathlib.Core.List.{List, [], ◌∷◌, ◌++◌}
use native.Mathlib.Omega.{arith}
use arbees.Prelude.Tests.{if◌then◌else◌, leb}
use arbees.Prelude.Lists.{length, drop_while}

module _ {ℓ} {A : Type ℓ} where
  unfoldable pub count_if : (A → Bool) → List A → ℕ
  count_if p [] = 0
  count_if p (x ∷ xs) = (if p x then 1 else 0) + count_if p xs

  pub count_if-append :
      (p : A → Bool) (xs ys : List A) → count_if p (xs ++ ys) ≡ count_if p xs + count_if p ys
  unfolding count_if
  count_if-append p [] ys = omega arith
  count_if-append p (x ∷ xs) ys = omega (arith, count_if-append p xs ys)

  pub count_if_mono :
      (p q : A → Bool) (xs : List A)
      → ((x : A) → p x ≡ true → q x ≡ true)
      → count_if p xs ≤ count_if q xs
  unfolding count_if
  count_if_mono p q [] h = omega arith
  count_if_mono p q (x ∷ xs) h = ground (arith, h x, count_if_mono p q xs h)

  pub count_if-le : (p : A → Bool) (xs : List A) → count_if p xs ≤ length xs
  unfolding count_if
  count_if-le p [] = omega arith
  count_if-le p (x ∷ xs) = ground (arith, count_if-le p xs)

  -- Dropping a prefix loses nothing that no dropped item counts for.
  pub count_if-drop_while :
      (p d : A → Bool) (xs : List A)
      → ((x : A) → d x ≡ true → p x ≡ true → ⊥)
      → count_if p (drop_while d xs) ≡ count_if p xs
  unfolding count_if
  count_if-drop_while p d [] h = refl
  count_if-drop_while p d (x ∷ xs) h = ground (arith, h x, count_if-drop_while p d xs h)

-- The times among `log` at most `window` before `now`.
abbrev pub count_since : ℕ → ℕ → List ℕ → ℕ
count_since window now log = count_if (leb (now - window)) log

-- The times of a list from `start` on, up to `window` later.
abbrev pub within : ℕ → ℕ → List ℕ → ℕ
within window start log = count_if (λ x. leb start x && leb x (start + window)) log

pub within-append :
    (window start now limit : ℕ) (log : List ℕ)
    → within window start log ≤ limit
    → count_since window now log < limit
    → within window start (log ++ (now ∷ [])) ≤ limit
unfolding count_if
within-append window start now limit log old few =
    let both = count_if-append (λ x. leb start x && leb x (start + window)) log (now ∷ []) in
    let recent : now ≤ start + window → within window start log ≤ count_since window now log = λ e.
      count_if_mono (λ x. leb start x && leb x (start + window)) (leb (now - window)) log
        (λ x p. ground arith) in
    ground (arith, recent, both)

within-split :
    (n m start : ℕ) (log : List ℕ)
    → within (n + m) start log ≤ within n start log + within m (start + n) log
unfolding count_if
within-split n m start [] = omega arith
within-split n m start (x ∷ log) = ground (arith, within-split n m start log)

-- A window and as long again `k` times holds what `k + 1` windows hold.
pub within_cover :
    (window limit k start : ℕ) (log : List ℕ)
    → ((start : ℕ) → within window start log ≤ limit)
    → within (window + k * window) start log ≤ (k + 1) * limit
within_cover window limit zero start log h =
    let same : window + 0 * window ≡ window = omega arith in rw same (omega (arith, h start))
within_cover window limit (suc k) start log h =
    let rest = within_cover window limit k (start + window) log h in
    let split = within-split window (window + k * window) start log in
    let same : window + suc k * window ≡ window + (window + k * window) = omega arith in
    let more : (suc k + 1) * limit ≡ limit + (k + 1) * limit = omega arith in
    rw (same, more) (omega (arith, h start, rest, split))
