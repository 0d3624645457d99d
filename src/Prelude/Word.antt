-- ===== src/Prelude/Word.antt =====
-- Machine integers. A release build of the crates wraps on overflow, so each operation on `i64`
-- is written as the exact result followed by the reduction to two's complement.
use Prim.Native.Nat.{ℕ, ◌+◌, ◌-◌, ◌^◌, ◌≤◌, ◌<◌, ◌%◌}
use mathlib.Core.Path.{◌≡◌}
use native.Mathlib.Omega.{arith}
use arbees.Prelude.Tests.{ltb, if◌then◌else◌}
use arbees.Prelude.Int.{ℤ, pos, negsuc, pos_part, neg_part, nat_abs, ltb_ℤ, ◌+ℤ◌, ◌-ℤ◌, nat_abs-+ℤ}

-- The bit pattern of an integer in 64 bits, and the `i64` that a pattern stands for.
bits_i64 : ℤ → ℕ
bits_i64 (pos n) = n % 2 ^ 64
bits_i64 (negsuc n) = 2 ^ 64 - 1 - n % 2 ^ 64

of_bits_i64 : ℕ → ℤ
of_bits_i64 r = if ltb r (2 ^ 63) then pos r else negsuc (2 ^ 64 - 1 - r)

unfoldable pub wrap_i64 : ℤ → ℤ
unfolding bits_i64 of_bits_i64
wrap_i64 x = of_bits_i64 (bits_i64 x)

abbrev pub IsI64 : ℤ → Type 0
IsI64 x = (pos_part x < 2 ^ 63) × (neg_part x ≤ 2 ^ 63)

pub wrap_i64_of_IsI64 : (x : ℤ) → IsI64 x → wrap_i64 x ≡ x
unfolding wrap_i64
wrap_i64_of_IsI64 (pos n) h = ground arith
wrap_i64_of_IsI64 (negsuc n) h = ground arith

pub wrap_i64-IsI64 : (x : ℤ) → IsI64 (wrap_i64 x)
unfolding wrap_i64
wrap_i64-IsI64 (pos n) = ground arith
wrap_i64-IsI64 (negsuc n) = ground arith

-- `a + b`, `-a` and `a.abs()` on `i64`, and `AtomicI64::fetch_add`, which always wraps.
unfoldable pub add_i64 : ℤ → ℤ → ℤ
add_i64 a b = wrap_i64 (a +ℤ b)

unfoldable pub neg_i64 : ℤ → ℤ
neg_i64 a = wrap_i64 (pos 0 -ℤ a)

unfoldable pub abs_i64 : ℤ → ℤ
abs_i64 a = if ltb_ℤ a (pos 0) then neg_i64 a else a

pub add_i64_exact : (a b : ℤ) → nat_abs a + nat_abs b < 2 ^ 63 → add_i64 a b ≡ a +ℤ b
unfolding add_i64
add_i64_exact a b h = wrap_i64_of_IsI64 (a +ℤ b) (omega (arith, nat_abs-+ℤ a b))

-- Every value but the least has its absolute value.
pub abs_i64_exact : (a : ℤ) → nat_abs a < 2 ^ 63 → abs_i64 a ≡ pos (nat_abs a)
unfolding abs_i64 neg_i64 wrap_i64 ◌-ℤ◌
abs_i64_exact (pos n) h = ground arith
abs_i64_exact (negsuc n) h = ground arith

pub neg_i64_exact : (a : ℤ) → nat_abs a < 2 ^ 63 → neg_i64 a ≡ pos 0 -ℤ a
unfolding neg_i64 wrap_i64 ◌-ℤ◌
neg_i64_exact (pos n) h = ground arith
neg_i64_exact (negsuc n) h = ground arith

abbrev pub u16 : ℕ → ℕ
u16 n = n % 2 ^ 16

abbrev pub u32 : ℕ → ℕ
u32 n = n % 2 ^ 32

abbrev pub u64 : ℕ → ℕ
u64 n = n % 2 ^ 64

-- The cast of an `i64` to `i32`, and the difference of two `i32`.
pub wrap_i32 : ℤ → ℤ
wrap_i32 a =
    let x = (pos_part a + 2 ^ 32 - neg_part a % 2 ^ 32) % 2 ^ 32 in
    if ltb x (2 ^ 31) then pos x else negsuc (2 ^ 32 - 1 - x)

pub sub_i32 : ℤ → ℤ → ℤ
unfolding wrap_i32 ◌-ℤ◌
sub_i32 a b = wrap_i32 (a -ℤ b)
