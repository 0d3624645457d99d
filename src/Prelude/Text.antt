-- ===== src/Prelude/Text.antt =====
-- Searching texts, and sets of texts as lists without an order.
use Prim.Native.String.{String}
use mathlib.Core.Bool.{Bool, true, false, not, ◌||◌}
use mathlib.Core.List.{List, [], ◌∷◌}
use mathlib.Core.Option.{none, some}
use text.Mathlib.Text.{◌==◌, find?}
use arbees.Prelude.Tests.{if◌then◌else◌}
use arbees.Prelude.Lists.{filter}

-- Rust's `contains` of a text.
abbrev pub contains : String → String → Bool
contains text part = elim (find? text part) [ none ↦ false | some i ↦ true ]

-- A `HashSet<String>`: membership, `insert`, `remove` and `difference`.
abbrev pub has : String → List String → Bool
has k [] = false
has k (x ∷ xs) = k == x || has k xs

abbrev pub with_item : String → List String → List String
with_item k xs = if has k xs then xs else k ∷ xs

abbrev pub without : String → List String → List String
without k xs = filter (λ x. not (k == x)) xs

abbrev pub difference : List String → List String → List String
difference xs ys = filter (λ x. not (has x ys)) xs
