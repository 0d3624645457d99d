-- ===== src/Positions/Debounce.antt =====
-- When services/position_tracker_rust/src/main.rs lets a position exit, from the triggers so far.
use arbees.Prelude.{
  ℕ, ◌+◌, ◌<◌, ◌≡◌, leb, String, Option, none, some, List, [], ◌∷◌, arith, if◌then◌else◌,
}
use package.text.Mathlib.TextEquality.{eq_iff}
use arbees.Prelude.Dict.{Dict, lookup, lookup-insert, lookup-remove}
use arbees.Prelude.Float.{Float}
use arbees.Prelude.Json.{unwrap_or}
use arbees.Positions.State.{Config}
use arbees.Positions.Exit.{debounce}

-- The triggers in a row up to the last check; the last comes first.
abbrev pub streak : List (Option String) → ℕ
streak [] = 0
streak (none ∷ triggers) = 0
streak (some reason ∷ triggers) = streak triggers + 1

module _ {F : Type 0} (f : Float F) (c : Config F) (trade_id : String) where
  -- The counts after the checks of a position with these triggers, the last one first.
  pub counts_after : List (Option String) → Dict ℕ → Dict ℕ
  counts_after [] counts = counts
  counts_after (trigger ∷ triggers) counts =
      (debounce f c trade_id trigger (counts_after triggers counts)).0

  counts_after-streak :
      (triggers : List (Option String)) (counts : Dict ℕ)
      → 0 < c.debounce_exit_checks
      → lookup trade_id counts ≡ none
      → unwrap_or (lookup trade_id (counts_after triggers counts)) 0 ≡ streak triggers
  unfolding counts_after debounce
  counts_after-streak [] counts on new = ground arith
  counts_after-streak (none ∷ triggers) counts on new = ground (
    arith,
    lookup-remove trade_id trade_id (counts_after triggers counts),
    eq_iff trade_id trade_id,
  )
  counts_after-streak (some reason ∷ triggers) counts on new =
      let before = counts_after triggers counts in
      let n = unwrap_or (lookup trade_id before) 0 + 1 in
      ground (
        arith,
        counts_after-streak triggers counts on new,
        lookup-insert trade_id trade_id n before,
        eq_iff trade_id trade_id,
      )

  -- A position that has no count exits at a check, for the reason of its trigger, exactly when that
  -- check and those right before it have triggered as many times as configured; a check without a
  -- trigger starts the count again.
  pub debounce-streak :
      (trigger : Option String) (triggers : List (Option String)) (counts : Dict ℕ)
      → 0 < c.debounce_exit_checks
      → lookup trade_id counts ≡ none
      → (debounce f c trade_id trigger (counts_after triggers counts)).1
        ≡ (if leb c.debounce_exit_checks (streak (trigger ∷ triggers)) then trigger else none)
  unfolding debounce
  debounce-streak none triggers counts on new = ground arith
  debounce-streak (some reason) triggers counts on new =
      ground (arith, counts_after-streak triggers counts on new)
