-- ===== src/Prelude/Json.antt =====
-- What the program uses of the crates serde_json and chrono and of Unicode: an interface, with the
-- values of JSON as a type of its own. A tree of JSON, for examples, shows that it can be met.
use Prim.Native.Nat.{ℕ}
use Prim.Native.String.{String}
use mathlib.Core.Bool.{Bool}
use mathlib.Core.List.{List, [], ◌∷◌}
use mathlib.Core.Option.{Option, none, some}
use arbees.Prelude.Int.{ℤ, pos}
use arbees.Prelude.Dict.{Dict, lookup}

-- `parse_time` gives nanoseconds since 1970 for a text of RFC 3339.
pub record Json (V : Type 0) : Type 0 where
  pub get : V → String → Option V
  pub as_str : V → Option String
  pub as_u64 : V → Option ℕ
  pub as_i64 : V → Option ℤ
  pub as_bool : V → Option Bool
  pub as_array : V → Option (List V)
  pub as_object : V → Option (Dict V)
  pub parse_time : String → Option ℕ
  pub to_lowercase : String → String

abbrev pub and_then {ℓ κ} : {A : Type ℓ} {B : Type κ} → Option A → (A → Option B) → Option B
and_then none f = none
and_then (some a) f = f a

abbrev pub or_else {ℓ} : {A : Type ℓ} → Option A → Option A → Option A
or_else none o = o
or_else (some a) o = some a

abbrev pub unwrap_or {ℓ} : {A : Type ℓ} → Option A → A → A
unwrap_or none a = a
unwrap_or (some b) a = b

abbrev pub filter_map {ℓ κ} : {A : Type ℓ} {B : Type κ} → (A → Option B) → List A → List B
filter_map f [] = []
filter_map f (a ∷ as') = elim (f a) [ none ↦ filter_map f as' | some b ↦ b ∷ filter_map f as' ]

mutual
  pub data Tree : Type 0 where
    null : Tree
    bool : Bool → Tree
    number : ℕ → Tree
    text : String → Tree
    array : Trees → Tree
    object : Fields → Tree

  pub data Trees : Type 0 where
    no_trees : Trees
    item : Tree → Trees → Trees

  pub data Fields : Type 0 where
    no_fields : Fields
    field : String → Tree → Fields → Fields

abbrev items : Trees → List Tree
items no_trees = []
items (item t ts) = t ∷ items ts

abbrev entries : Fields → Dict Tree
entries no_fields = []
entries (field k t fs) = (k, t) ∷ entries fs

abbrev str_of : Tree → Option String
str_of (text s) = some s
str_of _ = none

abbrev u64_of : Tree → Option ℕ
u64_of (number n) = some n
u64_of _ = none

abbrev bool_of : Tree → Option Bool
bool_of (bool b) = some b
bool_of _ = none

abbrev array_of : Tree → Option (List Tree)
array_of (array ts) = some (items ts)
array_of _ = none

abbrev object_of : Tree → Option (Dict Tree)
object_of (object fs) = some (entries fs)
object_of _ = none

-- No text is a time, and texts are in lower case already.
abbrev pub tree_json : Json Tree
tree_json = record {
  get = λ t k. and_then (object_of t) (lookup k);
  as_str = str_of;
  as_u64 = u64_of;
  as_i64 = λ t. and_then (u64_of t) (λ n. some (pos n));
  as_bool = bool_of;
  as_array = array_of;
  as_object = object_of;
  parse_time = λ s. none;
  to_lowercase = λ s. s;
}
