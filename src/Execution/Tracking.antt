-- ===== src/Execution/Tracking.antt =====
-- The `ExecutionTracker` of rust_core/src/execution.rs refines a set of market numbers.
use Prim.Native.Nat.{bit_and, bit_or}
use arbees.Prelude.{
  ℕ, zero, suc, ◌-◌, ◌/◌, ◌%◌, ◌^◌, ◌<◌, ◌≡◌, refl, ap, ◌∙◌, false, not, ◌&&◌, ◌||◌, [], ◌∷◌, arith,
  ltb, ◌==◌, if◌then◌else◌, set, length, length-set, get_elem?-set_self, get_elem?-set_ne, All,
}
use arbees.Prelude.Bits.{
  nothing-bit_and, bit, bit_and-bit, two_pow_pos, bit_and-not_bit, two_pow_lt,
}
use arbees.Prelude.BitPlaces.{bit-bit_or, bit-bit_and, bit-two_pow, bit-mask, bit_or-lt}
use arbees.Execution.{ExecutionTracker, word_at, mask_of, try_acquire, release, is_in_flight, reset}

-- Eight words of 64 bits.
abbrev pub IsTracker : ExecutionTracker → Type 0
IsTracker t = (length t ≡ 8) × All (λ w. w < 2 ^ 64) t

word_at-lt : (t : ExecutionTracker) (i : ℕ) → All (λ w. w < 2 ^ 64) t → word_at t i < 2 ^ 64
word_at-lt [] i h = omega arith
word_at-lt (w ∷ t) zero h = h.0
word_at-lt (w ∷ t) (suc i) h = word_at-lt t i h.1

All-set :
    (t : ExecutionTracker) (i w : ℕ)
    → w < 2 ^ 64
    → All (λ w. w < 2 ^ 64) t
    → All (λ w. w < 2 ^ 64) (set t i w)
All-set [] i w k h = tt
All-set (v ∷ t) zero w k h = (k, h.1)
All-set (v ∷ t) (suc i) w k h = (h.0, All-set t i w k h.1)

word_at-set :
    (t : ExecutionTracker) (i w k : ℕ)
    → i < length t
    → word_at (set t i w) k ≡ (if i == k then w else word_at t k)
word_at-set t i w k h = ground (arith, get_elem?-set_self t i w h, get_elem?-set_ne t i k w)

-- The bit of a market in its word.
flag : ExecutionTracker → ℕ → ℕ
flag t m = bit (word_at t (m / 64)) (m % 64)

mask_test : (w m : ℕ) → (bit_and w (mask_of m) == 0) ≡ (bit w (m % 64) == 0)
mask_test w m = rw (bit_and-bit (m % 64) w) (grind (arith, two_pow_pos (m % 64)))

is_in_flight-flag :
    (t : ExecutionTracker) (m : ℕ) → is_in_flight t m ≡ (ltb m 512 && not (flag t m == 0))
unfolding is_in_flight flag
is_in_flight-flag t m = ground (arith, mask_test (word_at t (m / 64)) m)

same_place : (m j : ℕ) → m / 64 ≡ j / 64 → m % 64 ≡ j % 64 → m ≡ j
same_place m j p q = omega arith

flag-acquired :
    (t : ExecutionTracker) (m j : ℕ)
    → length t ≡ 8
    → m < 512
    → flag (set t (m / 64) (bit_or (word_at t (m / 64)) (mask_of m))) j
      ≡ (if m == j then 1 else flag t j)
unfolding flag
flag-acquired t m j len h =
    let w = word_at t (m / 64) in
    rw (word_at-set t (m / 64) (bit_or w (mask_of m)) (j / 64) (omega arith)) (
      ground
        (arith, bit-bit_or (j % 64) w (mask_of m), bit-two_pow (m % 64) (j % 64), same_place m j))

flag-released :
    (t : ExecutionTracker) (m j : ℕ)
    → length t ≡ 8
    → m < 512
    → flag (set t (m / 64) (bit_and (word_at t (m / 64)) (2 ^ 64 - 1 - mask_of m))) j
      ≡ (if m == j then 0 else flag t j)
unfolding flag
flag-released t m j len h =
    let w = word_at t (m / 64) in
    rw (word_at-set t (m / 64) (bit_and w (2 ^ 64 - 1 - mask_of m)) (j / 64) (omega arith)) (
      ground (
        arith,
        bit-bit_and (j % 64) w (2 ^ 64 - 1 - mask_of m),
        bit-mask (m % 64) 64 (j % 64),
        same_place m j,
      ))

pub try_acquire-IsTracker :
    (t : ExecutionTracker) (m : ℕ) → IsTracker t → IsTracker (try_acquire t m).0
unfolding try_acquire
try_acquire-IsTracker t m v =
    let w = word_at t (m / 64) in
    let fits =
      bit_or-lt 64 w (mask_of m) (word_at-lt t (m / 64) v.1)
        (two_pow_lt (m % 64) 64 (omega arith)) in
    ground (
      arith,
      length-set t (m / 64) (bit_or w (mask_of m)),
      All-set t (m / 64) (bit_or w (mask_of m)) fits v.1,
    )

pub release-IsTracker : (t : ExecutionTracker) (m : ℕ) → IsTracker t → IsTracker (release t m)
unfolding release
release-IsTracker t m v =
    let w = word_at t (m / 64) in
    let new_word = bit_and w (2 ^ 64 - 1 - mask_of m) in
    let small = word_at-lt t (m / 64) v.1 in
    let less = bit_and-not_bit (m % 64) 64 w (omega arith) small in
    let fits : new_word < 2 ^ 64 = omega (arith, less) in
    ground (arith, length-set t (m / 64) new_word, All-set t (m / 64) new_word fits v.1)

pub reset-IsTracker : (t : ExecutionTracker) → IsTracker t → IsTracker (reset t)
unfolding reset
reset-IsTracker t v = (length-reset t ∙ v.0, All-reset t)
  where
    length-reset : (t : ExecutionTracker) → length (reset t) ≡ length t
    length-reset [] = refl
    length-reset (w ∷ t) = ap suc (length-reset t)

    All-reset : (t : ExecutionTracker) → All (λ w. w < 2 ^ 64) (reset t)
    All-reset [] = tt
    All-reset (w ∷ t) = (omega arith, All-reset t)

pub try_acquire-flight :
    (t : ExecutionTracker) (m j : ℕ)
    → IsTracker t
    → is_in_flight (try_acquire t m).0 j ≡ (ltb m 512 && m == j || is_in_flight t j)
unfolding try_acquire
try_acquire-flight t m j v =
    rw (is_in_flight-flag (try_acquire t m).0 j, is_in_flight-flag t j)
      (ground (arith, flag-acquired t m j v.0))

pub try_acquire-answer :
    (t : ExecutionTracker) (m : ℕ) → (try_acquire t m).1 ≡ (ltb m 512 && not (is_in_flight t m))
unfolding try_acquire is_in_flight
try_acquire-answer t m = ground arith

pub release-flight :
    (t : ExecutionTracker) (m j : ℕ)
    → IsTracker t
    → is_in_flight (release t m) j ≡ (not (m == j) && is_in_flight t j)
unfolding release
release-flight t m j v =
    rw (is_in_flight-flag (release t m) j, is_in_flight-flag t j)
      (ground (arith, flag-released t m j v.0))

reset-word : (t : ExecutionTracker) (i : ℕ) → word_at (reset t) i ≡ 0
unfolding reset
reset-word [] i = refl
reset-word (w ∷ t) zero = refl
reset-word (w ∷ t) (suc i) = reset-word t i

pub reset-flight : (t : ExecutionTracker) (j : ℕ) → is_in_flight (reset t) j ≡ false
unfolding is_in_flight
reset-flight t j = rw (reset-word t (j / 64)) (ground (arith, nothing-bit_and (mask_of j)))
