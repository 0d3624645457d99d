-- ===== src/Prelude/Bits.antt =====
-- Laws of the bit operations `|` and `&` on native numbers, with shifted words, with single bits
-- and with masks.
use Prim.Native.Nat.{
  ℕ, zero, suc, ◌+◌, ◌-◌, ◌*◌, ◌/◌, ◌%◌, ◌^◌, ◌≤◌, ◌<◌, min, max, bit_and, bit_or, digits,
  bit_and-bitwise, bit_or-bitwise,
}
use Prim.Native.Nat.pow
use mathlib.Core.Path.{◌≡◌, refl, sym, ap, ◌∙◌}
use native.Mathlib.Nat.{mul_comm, div-div-eq-div-mul}
use native.Mathlib.Omega.{arith}

-- The digits of two numbers, combined: what starts at any count that covers the first number
-- gives the same, and the lowest digit comes apart.
module _ (z : ℕ → ℕ) (f : ℕ → ℕ → ℕ) where
  digits-out : (n b : ℕ) → digits z f n 0 b ≡ z b
  digits-out zero b = refl
  digits-out (suc n) b = refl

  count_irrelevant : (a m n b : ℕ) → (a ≤ m) × (a ≤ n) → digits z f m a b ≡ digits z f n a b
  count_irrelevant zero m n b h = rw (digits-out m b, digits-out n b)
  count_irrelevant (suc a) (suc m) (suc n) b (p, q) =
      ap (λ d. d * 2 + f (suc a % 2) (b % 2))
        (count_irrelevant (suc a / 2) m n (b / 2) (omega arith, omega arith))
  count_irrelevant (suc a) zero n b (p, q) = absurd (omega arith)
  count_irrelevant (suc a) (suc m) zero b (p, q) = absurd (omega arith)

  lowest_digit :
      ((b : ℕ) → z b ≡ z (b / 2) * 2 + f 0 (b % 2))
      → (a b : ℕ) → digits z f a a b ≡ digits z f (a / 2) (a / 2) (b / 2) * 2 + f (a % 2) (b % 2)
  lowest_digit out zero b = out b
  lowest_digit out (suc a) b =
      ap (λ d. d * 2 + f (suc a % 2) (b % 2))
        (count_irrelevant (suc a / 2) a (suc a / 2) (b / 2) (omega arith, omega arith))

pub bit_and-halves : (a b : ℕ) → bit_and a b ≡ bit_and (a / 2) (b / 2) * 2 + min (a % 2) (b % 2)
bit_and-halves a b =
    let split = lowest_digit (λ b. zero) min (λ b. omega arith) a b in
    rw (bit_and-bitwise a b, bit_and-bitwise (a / 2) (b / 2), split)

pub bit_or-halves : (a b : ℕ) → bit_or a b ≡ bit_or (a / 2) (b / 2) * 2 + max (a % 2) (b % 2)
bit_or-halves a b =
    let split = lowest_digit (λ b. b) max (λ b. omega arith) a b in
    rw (bit_or-bitwise a b, bit_or-bitwise (a / 2) (b / 2), split)

no_digits : (n a : ℕ) → digits (λ b. zero) min n a 0 ≡ 0
no_digits zero a = refl
no_digits (suc n) zero = refl
no_digits (suc n) (suc a) = omega (arith, no_digits n (suc a / 2))

all_digits : (n a : ℕ) → a ≤ n → digits (λ b. b) max n a 0 ≡ a
all_digits n zero h = digits-out (λ b. b) max n 0
all_digits zero (suc a) h = absurd (omega arith)
all_digits (suc n) (suc a) h = omega (arith, all_digits n (suc a / 2) (omega arith))

pub nothing-bit_and : (b : ℕ) → bit_and 0 b ≡ 0
nothing-bit_and b = bit_and-bitwise 0 b

pub nothing-bit_or : (b : ℕ) → bit_or 0 b ≡ b
nothing-bit_or b = bit_or-bitwise 0 b

pub bit_and-nothing : (a : ℕ) → bit_and a 0 ≡ 0
bit_and-nothing a = bit_and-bitwise a 0 ∙ no_digits a a

pub bit_or-nothing : (a : ℕ) → bit_or a 0 ≡ a
bit_or-nothing a = bit_or-bitwise a 0 ∙ all_digits a a (omega arith)

bit_or-double : (a y : ℕ) → bit_or (a * 2) y ≡ bit_or a (y / 2) * 2 + y % 2
bit_or-double a y =
    let half : a * 2 / 2 ≡ a = omega arith in
    let step = rw half at (bit_or-halves (a * 2) y) in omega (arith, step)

shift_suc : (x k : ℕ) → x * 2 ^ suc k ≡ x * 2 ^ k * 2
shift_suc x k = rw (pow.suc 2 k) (omega arith)

-- A word shifted left by `k`, and `k` lower bits, do not overlap.
pub bit_or-shifted : (k x y : ℕ) → y < 2 ^ k → bit_or (x * 2 ^ k) y ≡ x * 2 ^ k + y
bit_or-shifted zero x y h =
    let none_left : y ≡ 0 = omega arith in rw none_left (omega (arith, bit_or-nothing (x * 2 ^ 0)))
bit_or-shifted (suc k) x y h =
    let below : y / 2 < 2 ^ k = omega (arith, pow.suc 2 k) in
    rw (shift_suc x k)
      (omega (arith, bit_or-double (x * 2 ^ k) y, bit_or-shifted k x (y / 2) below))

half_quotient : (a p : ℕ) → a / (p * 2) ≡ a / 2 / p
half_quotient a p = rw (mul_comm p 2) (sym (div-div-eq-div-mul a 2 p))

-- The bit of `a` at position `i`.
abbrev pub bit : ℕ → ℕ → ℕ
bit a i = a / 2 ^ i % 2

pub bit-suc : (a i : ℕ) → bit a (suc i) ≡ bit (a / 2) i
bit-suc a i = rw (pow.suc 2 i, half_quotient a (2 ^ i)) refl

pub two_pow_pos : (i : ℕ) → 0 < 2 ^ i
two_pow_pos zero = omega arith
two_pow_pos (suc i) = omega (arith, pow.suc 2 i, two_pow_pos i)

-- `a & (1 << i)` is the bit at its place, and `a | (1 << i)` adds it where it is missing.
pub bit_and-bit : (i a : ℕ) → bit_and a (2 ^ i) ≡ bit a i * 2 ^ i
bit_and-bit zero a = omega (arith, bit_and-halves a 1, bit_and-nothing (a / 2))
bit_and-bit (suc i) a =
    let half : 2 ^ i * 2 / 2 ≡ 2 ^ i = omega arith in
    let step = rw half at (bit_and-halves a (2 ^ i * 2)) in
    rw (bit-suc a i, pow.suc 2 i) (omega (arith, step, bit_and-bit i (a / 2)))

pub bit_or-bit : (i a : ℕ) → bit_or a (2 ^ i) ≡ a + (1 - bit a i) * 2 ^ i
bit_or-bit zero a = omega (arith, bit_or-halves a 1, bit_or-nothing (a / 2))
bit_or-bit (suc i) a =
    let half : 2 ^ i * 2 / 2 ≡ 2 ^ i = omega arith in
    let step = rw half at (bit_or-halves a (2 ^ i * 2)) in
    rw (bit-suc a i, pow.suc 2 i) (omega (arith, step, bit_or-bit i (a / 2)))

pub bit-le : (i a : ℕ) → bit a i * 2 ^ i ≤ a
bit-le zero a = omega arith
bit-le (suc i) a = rw (bit-suc a i) (omega (arith, shift_suc (bit (a / 2) i) i, bit-le i (a / 2)))

-- `a & (2 ^ w - 1)` on a word of `w` bits, and `a & !(1 << i)`.
bit_and-ones : (w a : ℕ) → a < 2 ^ w → bit_and a (2 ^ w - 1) ≡ a
bit_and-ones zero a h =
    let none_left : a ≡ 0 = omega arith in rw none_left (nothing-bit_and (2 ^ 0 - 1))
bit_and-ones (suc w) a h =
    let two = pow.suc 2 w in
    let half : (2 ^ suc w - 1) / 2 ≡ 2 ^ w - 1 = omega (arith, two, two_pow_pos w) in
    let step = rw half at (bit_and-halves a (2 ^ suc w - 1)) in
    omega (arith, step, two, two_pow_pos w, bit_and-ones w (a / 2) (omega (arith, two)))

pub two_pow_lt : (i w : ℕ) → i < w → 2 ^ i < 2 ^ w
two_pow_lt i zero h = absurd (omega arith)
two_pow_lt zero (suc w) h = omega (arith, pow.suc 2 w, two_pow_pos w)
two_pow_lt (suc i) (suc w) h = omega (arith, pow.suc 2 w, pow.suc 2 i, two_pow_lt i w (omega arith))

pub bit_and-not_bit :
    (i w a : ℕ) → i < w → a < 2 ^ w → bit_and a (2 ^ w - 1 - 2 ^ i) ≡ a - bit a i * 2 ^ i
bit_and-not_bit i zero a h l = absurd (omega arith)
bit_and-not_bit zero (suc w) a h l =
    let two = pow.suc 2 w in
    let half : (2 ^ suc w - 1 - 2 ^ 0) / 2 ≡ 2 ^ w - 1 = omega (arith, two, two_pow_pos w) in
    let step = rw half at (bit_and-halves a (2 ^ suc w - 1 - 2 ^ 0)) in
    omega (arith, step, two, two_pow_pos w, bit_and-ones w (a / 2) (omega (arith, two)))
bit_and-not_bit (suc i) (suc w) a h l =
    let two = pow.suc 2 w in
    let lower = pow.suc 2 i in
    let gap = two_pow_lt i w (omega arith) in
    let half : (2 ^ suc w - 1 - 2 ^ suc i) / 2 ≡ 2 ^ w - 1 - 2 ^ i =
      omega (arith, two, lower, gap) in
    let step = rw half at (bit_and-halves a (2 ^ suc w - 1 - 2 ^ suc i)) in
    let rest = bit_and-not_bit i w (a / 2) (omega arith) (omega (arith, two)) in
    rw (bit-suc a i)
      (omega (arith, step, rest, shift_suc (bit (a / 2) i) i, two, lower, gap, bit-le i (a / 2)))
