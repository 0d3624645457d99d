-- ===== src/Prelude/Dict.antt =====
-- `HashMap<String, V>` as an association list in the order of insertion, with one entry for a
-- key. The program's maps are read by key, or folded in an order that the statements do not use.
use Prim.Native.Nat.{◌+◌, ◌≤◌}
use Prim.Native.String.{String}
use mathlib.Core.Path.{◌≡◌}
use mathlib.Core.List.{List, [], ◌∷◌}
use mathlib.Core.Option.{Option, none, some}
use native.Mathlib.Omega.{arith}
use text.Mathlib.Text.{◌==◌}
use text.Mathlib.TextEquality.{eq_iff}
use arbees.Prelude.Tests.{if◌then◌else◌}
use arbees.Prelude.Lists.{length}

abbrev pub Dict {ℓ} : Type ℓ → Type ℓ
Dict V = List (String × V)

module _ {ℓ} {V : Type ℓ} where
  -- `get`.
  unfoldable pub lookup : String → Dict V → Option V
  lookup key [] = none
  lookup key (entry ∷ rest) = if key == entry.0 then some (entry.1) else lookup key rest

  -- `insert`: a key that is there keeps its place.
  unfoldable pub insert : String → V → Dict V → Dict V
  insert key value [] = (key, value) ∷ []
  insert key value (entry ∷ rest) =
      if key == entry.0 then (key, value) ∷ rest else entry ∷ insert key value rest

  -- `remove`.
  unfoldable pub remove : String → Dict V → Dict V
  remove key [] = []
  remove key (entry ∷ rest) = if key == entry.0 then remove key rest else entry ∷ remove key rest

  pub lookup-insert :
      (key other : String) (value : V) (dict : Dict V)
      → lookup other (insert key value dict)
        ≡ (if key == other then some value else lookup other dict)
  unfolding lookup insert
  lookup-insert key other value [] = ground (arith, eq_iff key other, eq_iff other key)
  lookup-insert key other value (entry ∷ rest) =
      let at_key = eq_iff key (entry.0) in
      let at_other = eq_iff other (entry.0) in
      ground (
        arith,
        at_key,
        at_other,
        eq_iff key other,
        eq_iff other key,
        lookup-insert key other value rest,
      )

  pub lookup-remove :
      (key other : String) (dict : Dict V)
      → lookup other (remove key dict) ≡ (if key == other then none else lookup other dict)
  unfolding lookup remove
  lookup-remove key other [] = ground arith
  lookup-remove key other (entry ∷ rest) =
      let at_key = eq_iff key (entry.0) in
      let at_other = eq_iff other (entry.0) in
      ground (arith, at_key, at_other, eq_iff key other, lookup-remove key other rest)

  pub length-insert : (k : String) (v : V) (m : Dict V) → length (insert k v m) ≤ length m + 1
  unfolding insert
  length-insert k v [] = omega arith
  length-insert k v ((j, w) ∷ m) = ground (arith, length-insert k v m)
