-- ===== src/Prelude/Float.antt =====
-- What the program uses of `f64`, of its formatting and of that of integers: an interface, which
-- says nothing of rounding. Fixed-point numbers, for examples, show that it can be met.
use Prim.Native.Nat.{ℕ, suc, ◌+◌, ◌*◌, ◌/◌}
use Prim.Native.String.{String}
use mathlib.Core.Bool.{Bool, not, ◌||◌}
use arbees.Prelude.Tests.{if◌then◌else◌}
use arbees.Prelude.Int.{ℤ, pos, negsuc, pos_part, sub_ℕ, ltb_ℤ, ◌+ℤ◌, ◌-ℤ◌, ◌*ℤ◌}

-- `ratio a b` is the literal that stands for a / b. `lt`, `le` and `eq` are false at NaN, and
-- `min` and `max` give the other number there. `round_i32`
-- `cents` is what a column of type DECIMAL with two decimals keeps of a number. `round_i32`
-- and `round_u16` are `round` with a cast, which saturates, and `of_int` is the cast to `f64`.
pub record Float (F : Type 0) : Type 0 where
  pub ratio : ℕ → ℕ → F
  pub add : F → F → F
  pub sub : F → F → F
  pub mul : F → F → F
  pub div : F → F → F
  pub neg : F → F
  pub lt : F → F → Bool
  pub le : F → F → Bool
  pub eq : F → F → Bool
  pub min : F → F → F
  pub max : F → F → F
  pub cents : F → F
  pub round_i32 : F → ℤ
  pub round_u16 : F → ℕ
  pub of_int : ℤ → F
  pub show : (decimals : ℕ) → F → String
  pub show_int : ℤ → String

abbrev pub zero_of : {F : Type 0} → Float F → F
zero_of f = f.ratio 0 1

-- A quotient towards 0, in ten-thousandths.
quotient : ℤ → ℤ → ℤ
quotient (pos m) (pos n) = pos (m * 10_000 / n)
quotient (pos m) (negsuc n) = sub_ℕ 0 (m * 10_000 / suc n)
quotient (negsuc m) (pos n) = sub_ℕ 0 (suc m * 10_000 / n)
quotient (negsuc m) (negsuc n) = pos (suc m * 10_000 / suc n)

-- Whole hundreds of ten-thousandths.
cents_of : ℤ → ℤ
cents_of (pos n) = pos ((n + 50) / 100 * 100)
cents_of (negsuc n) = sub_ℕ 0 ((suc n + 50) / 100 * 100)

-- Ten-thousandths; nothing is shown.
unfoldable pub fixed : Float ℤ
unfolding quotient cents_of ◌+ℤ◌ ◌-ℤ◌ ◌*ℤ◌
fixed = record {
  ratio = λ a b. pos (a * 10_000 / b);
  add = λ a b. a +ℤ b;
  sub = λ a b. a -ℤ b;
  mul = λ a b. quotient (a *ℤ b) (pos 100_000_000);
  div = quotient;
  neg = λ a. pos 0 -ℤ a;
  lt = ltb_ℤ;
  le = λ a b. not (ltb_ℤ b a);
  eq = λ a b. not (ltb_ℤ a b || ltb_ℤ b a);
  min = λ a b. if ltb_ℤ b a then b else a;
  max = λ a b. if ltb_ℤ a b then b else a;
  cents = cents_of;
  round_i32 = λ a. pos ((pos_part a + 5_000) / 10_000);
  round_u16 = λ a. (pos_part a + 5_000) / 10_000;
  of_int = λ n. n *ℤ pos 10_000;
  show = λ d a. "";
  show_int = λ n. "";
}
