-- ===== src/Prelude/BitPlaces.antt =====
-- The binary digits of the results of `|` and `&`, place by place, and the number of ones.
use Prim.Native.Nat.{ℕ, zero, suc, ◌+◌, ◌-◌, ◌/◌, ◌%◌, ◌^◌, ◌≤◌, ◌<◌, min, max, bit_and, bit_or}
use Prim.Native.Nat.pow
use mathlib.Core.Path.{◌≡◌, refl}
use mathlib.Core.Bool.{false}
use native.Mathlib.Omega.{arith}
use arbees.Prelude.Tests.{◌==◌, if◌then◌else◌}
use arbees.Prelude.Bits.{
  bit, bit-suc, bit_and-halves, bit_or-halves, bit_or-nothing, nothing-bit_or, two_pow_pos,
  two_pow_lt,
}

-- The bits of a result are those of the arguments, put together place by place.
pub bit-bit_or : (j a b : ℕ) → bit (bit_or a b) j ≡ max (bit a j) (bit b j)
bit-bit_or zero a b = omega (arith, bit_or-halves a b)
bit-bit_or (suc j) a b =
    let half : bit_or a b / 2 ≡ bit_or (a / 2) (b / 2) = omega (arith, bit_or-halves a b) in
    rw (bit-suc (bit_or a b) j, bit-suc a j, bit-suc b j, half) (bit-bit_or j (a / 2) (b / 2))

pub bit-bit_and : (j a b : ℕ) → bit (bit_and a b) j ≡ min (bit a j) (bit b j)
bit-bit_and zero a b = omega (arith, bit_and-halves a b)
bit-bit_and (suc j) a b =
    let half : bit_and a b / 2 ≡ bit_and (a / 2) (b / 2) = omega (arith, bit_and-halves a b) in
    rw (bit-suc (bit_and a b) j, bit-suc a j, bit-suc b j, half) (bit-bit_and j (a / 2) (b / 2))

bit_of_zero : (j : ℕ) → bit 0 j ≡ 0
bit_of_zero zero = omega arith
bit_of_zero (suc j) = rw (bit-suc 0 j) (bit_of_zero j)

pub bit-two_pow : (i j : ℕ) → bit (2 ^ i) j ≡ (if i == j then 1 else 0)
bit-two_pow zero zero = refl
bit-two_pow zero (suc j) = rw (bit-suc 1 j) (ground (arith, bit_of_zero j))
bit-two_pow (suc i) zero =
    let other : (suc i == 0) ≡ false = ground arith in rw other (omega (arith, pow.suc 2 i))
bit-two_pow (suc i) (suc j) =
    let half : 2 ^ suc i / 2 ≡ 2 ^ i = omega (arith, pow.suc 2 i) in
    rw (bit-suc (2 ^ suc i) j, half) (ground (arith, bit-two_pow i j))

bit_of_ones : (w j : ℕ) → j < w → bit (2 ^ w - 1) j ≡ 1
bit_of_ones zero j h = absurd (omega arith)
bit_of_ones (suc w) zero h = omega (arith, pow.suc 2 w, two_pow_pos w)
bit_of_ones (suc w) (suc j) h =
    let half : (2 ^ suc w - 1) / 2 ≡ 2 ^ w - 1 = omega (arith, pow.suc 2 w, two_pow_pos w) in
    rw (bit-suc (2 ^ suc w - 1) j, half) (bit_of_ones w j (omega arith))

-- The mask `!(1 << i)` of `w` bits has every bit but one.
pub bit-mask : (i w j : ℕ) → i < w → j < w → bit (2 ^ w - 1 - 2 ^ i) j ≡ (if i == j then 0 else 1)
bit-mask i zero j h k = absurd (omega arith)
bit-mask zero (suc w) zero h k = omega (arith, pow.suc 2 w, two_pow_pos w)
bit-mask zero (suc w) (suc j) h k =
    let half : (2 ^ suc w - 1 - 1) / 2 ≡ 2 ^ w - 1 = omega (arith, pow.suc 2 w, two_pow_pos w) in
    rw (bit-suc (2 ^ suc w - 1 - 1) j, half) (ground (arith, bit_of_ones w j (omega arith)))
bit-mask (suc i) (suc w) zero h k =
    let other : (suc i == 0) ≡ false = ground arith in
    rw other (omega (arith, pow.suc 2 w, pow.suc 2 i, two_pow_lt i w (omega arith)))
bit-mask (suc i) (suc w) (suc j) h k =
    let gap = two_pow_lt i w (omega arith) in
    let half : (2 ^ suc w - 1 - 2 ^ suc i) / 2 ≡ 2 ^ w - 1 - 2 ^ i =
      omega (arith, pow.suc 2 w, pow.suc 2 i, gap) in
    rw (bit-suc (2 ^ suc w - 1 - 2 ^ suc i) j, half)
      (ground (arith, bit-mask i w j (omega arith) (omega arith)))

pub bit_or-lt : (w a b : ℕ) → a < 2 ^ w → b < 2 ^ w → bit_or a b < 2 ^ w
bit_or-lt zero a b h k =
    let none_left : a ≡ 0 = omega arith in rw none_left (rw (nothing-bit_or b) k)
bit_or-lt (suc w) a b h k = omega (
  arith,
  bit_or-halves a b,
  pow.suc 2 w,
  bit_or-lt w (a / 2) (b / 2) (omega (arith, pow.suc 2 w)) (omega (arith, pow.suc 2 w)),
)

-- The number of ones among the `w` lowest bits.
unfoldable pub ones : ℕ → ℕ → ℕ
ones zero a = 0
ones (suc w) a = a % 2 + ones w (a / 2)

pub ones-bit_or : (i w a : ℕ) → i < w → ones w (bit_or a (2 ^ i)) ≡ ones w a + (1 - bit a i)
unfolding ones
ones-bit_or i zero a h = absurd (omega arith)
ones-bit_or zero (suc w) a h =
    let half : bit_or a 1 / 2 ≡ a / 2 = omega (arith, bit_or-halves a 1, bit_or-nothing (a / 2)) in
    rw half (omega (arith, bit_or-halves a 1))
ones-bit_or (suc i) (suc w) a h =
    let two : 2 ^ suc i / 2 ≡ 2 ^ i = omega (arith, pow.suc 2 i) in
    let step = rw two at (bit_or-halves a (2 ^ suc i)) in
    let half : bit_or a (2 ^ suc i) / 2 ≡ bit_or (a / 2) (2 ^ i) =
      omega (arith, step, pow.suc 2 i) in
    rw (half, bit-suc a i) (omega (arith, step, pow.suc 2 i, ones-bit_or i w (a / 2) (omega arith)))

pub ones-le : (w a : ℕ) → ones w a ≤ w
unfolding ones
ones-le zero a = omega arith
ones-le (suc w) a = omega (arith, ones-le w (a / 2))
