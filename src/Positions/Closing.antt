-- ===== src/Positions/Closing.antt =====
-- The loop of services/position_tracker_rust/src/main.rs that closes positions by their places, from
-- the last one on: what it closes and what it leaves.
use arbees.Prelude.{
  ℕ, suc, ◌+◌, ◌≡◌, refl, sym, ap, ◌∙◌, ◌⊎◌, inl, inr, Option-cases, String, Option, none, some,
  List, [], ◌∷◌, ◌++◌, map, length, arith,
}
use arbees.Prelude.Float.{Float}
use arbees.Engine.State.{Result, ok, err}
use arbees.Positions.State.{OpenPosition, PositionTracker, World}
use arbees.Positions.Close.{remove_at, announce, close_position, close_all, places, reverse}

-- One place further.
abbrev pub later {ℓ} : {B : Type ℓ} → List (ℕ × B) → List (ℕ × B)
later is = map (λ i. (suc (i.0), i.1)) is

append-later {ℓ} :
    {B : Type ℓ} (is : List (ℕ × B)) (i : ℕ × B)
    → later is ++ ((suc (i.0), i.1) ∷ []) ≡ later (is ++ (i ∷ []))
append-later [] i = refl
append-later (h ∷ is) i = ap (λ t. (suc (h.0), h.1) ∷ t) (append-later is i)

pub reverse-later {ℓ} : {B : Type ℓ} (is : List (ℕ × B)) → reverse (later is) ≡ later (reverse is)
reverse-later [] = refl
reverse-later (i ∷ is) = rw (reverse-later is) (append-later (reverse is) i)

add_one : (n : ℕ) → n + 1 ≡ suc n
add_one n = omega arith

pub places-suc {ℓ κ} :
    {A : Type ℓ} {B : Type κ} (choose : A → Option B) (n : ℕ) (xs : List A)
    → places choose (n + 1) xs ≡ later (places choose n xs)
unfolding places
places-suc choose n [] = refl
places-suc choose n (x ∷ xs) = elim (Option-cases (choose x)) [
  | inl e ↦ rw (e, places) (places-suc choose (n + 1) xs)
  | inr (b, e) ↦
      rw (e, places)
        (ap (λ t. (n + 1, b) ∷ t) (places-suc choose (n + 1) xs)
          ∙ ap (λ m. (m, b) ∷ later (places choose (n + 1) xs)) (add_one n))
]

module _ {F : Type 0} (f : Float F) where
  -- With one more position in front.
  abbrev pub front : OpenPosition F → PositionTracker F → PositionTracker F
  front x s = record s { open_positions = x ∷ s.open_positions }

  close_position-front :
      (w : World F) (x : OpenPosition F) (s : PositionTracker F) (p : OpenPosition F) (e : F)
      (reason : String)
      → close_position f w (front x s) p e reason
        ≡ (front x ((close_position f w s p e reason).0), (close_position f w s p e reason).1)
  unfolding close_position announce
  close_position-front w x s p e reason = ground arith

  Result-cases : (r : Result (Unit {0})) → (r ≡ ok tt) ⊎ ((e : String) × (r ≡ err e))
  Result-cases (ok tt) = inl refl
  Result-cases (err e) = inr (e, refl)

  -- The state without one position.
  abbrev pub without_position :
      PositionTracker F → OpenPosition F × List (OpenPosition F) → PositionTracker F
  without_position s taken = record s { open_positions = taken.1 }

  -- One step of the loop, that goes on or ends with an error.
  pub close_all-step :
      (w : ℕ → World F) (reason : String) (n place : ℕ) (price : F) (is : List (ℕ × F))
      (s : PositionTracker F) (taken : OpenPosition F × List (OpenPosition F))
      → remove_at place s.open_positions ≡ some taken
      → let call = close_position f (w n) (without_position s taken) (taken.0) price reason in
        (call.1 ≡ ok tt
          → close_all f w reason n ((place, price) ∷ is) s
            ≡ close_all f w reason (n + 1) is (call.0))
        × ((e : String)
            → call.1 ≡ err e
            → close_all f w reason n ((place, price) ∷ is) s ≡ (call.0, err e))
  unfolding close_all
  close_all-step w reason n place price is s taken h = (λ good. ground arith, λ e bad. ground arith)

  close_all-panic :
      (w : ℕ → World F) (reason : String) (n place : ℕ) (price : F) (is : List (ℕ × F))
      (s : PositionTracker F)
      → remove_at place s.open_positions ≡ none
      → close_all f w reason n ((place, price) ∷ is) s ≡ (s, err "panic")
  unfolding close_all
  close_all-panic w reason n place price is s h = ground arith

  abbrev fronted :
      OpenPosition F → PositionTracker F × Result (Unit {0}) → PositionTracker F × Result (Unit {0})
  fronted x (s, r) = (front x s, r)

  remove_at-front :
      (place : ℕ) (x : OpenPosition F) (xs : List (OpenPosition F))
      (taken : OpenPosition F × List (OpenPosition F))
      → remove_at place xs ≡ some taken
      → remove_at (suc place) (x ∷ xs) ≡ some (taken.0, x ∷ taken.1)
  remove_at-front place x xs taken e = rw e refl

  remove_at-front_none :
      (place : ℕ) (x : OpenPosition F) (xs : List (OpenPosition F))
      → remove_at place xs ≡ none
      → remove_at (suc place) (x ∷ xs) ≡ none
  remove_at-front_none place x xs e = rw e refl

  -- A position in front of all places stays there.
  pub close_all-front :
      (w : ℕ → World F) (reason : String) (n : ℕ) (is : List (ℕ × F)) (x : OpenPosition F)
      (s : PositionTracker F)
      → close_all f w reason n (later is) (front x s)
        ≡ (front x ((close_all f w reason n is s).0), (close_all f w reason n is s).1)
  close_all-front w reason n [] x s = unfold close_all in refl
  close_all-front w reason n ((place, price) ∷ is) x s =
      elim (Option-cases (remove_at place s.open_positions)) [
        | inl e ↦
            close_all-panic w reason n (suc place) price (later is) (front x s)
              (remove_at-front_none place x s.open_positions e)
            ∙ sym (ap (fronted x) (close_all-panic w reason n place price is s e))
        | inr (taken, e) ↦
            let call = close_position f (w n) (without_position s taken) (taken.0) price reason in
            let moved =
              close_position-front (w n) x (without_position s taken) (taken.0) price reason in
            let (on, off) = close_all-step w reason n place price is s taken e in
            let (on', off') =
              close_all-step w reason n (suc place) price (later is) (front x s)
                (taken.0, x ∷ taken.1) (remove_at-front place x s.open_positions taken e) in
            elim (Result-cases (call.1)) [
              | inl good ↦
                  on' (ap (λ t. t.1) moved ∙ good)
                  ∙ ap (λ t. close_all f w reason (n + 1) (later is) (t.0)) moved
                  ∙ close_all-front w reason (n + 1) is x (call.0)
                  ∙ sym (ap (fronted x) (on good))
              | inr (message, bad) ↦
                  off' message (ap (λ t. t.1) moved ∙ bad)
                  ∙ ap (λ t. (t.0, err message)) moved
                  ∙ sym (ap (fronted x) (off message bad))
            ]
      ]

  -- The last place comes once the others have been closed without an error.
  pub close_all-append :
      (w : ℕ → World F) (reason : String) (n : ℕ) (is : List (ℕ × F)) (i : ℕ × F)
      (s : PositionTracker F)
      → (close_all f w reason n is s).1 ≡ ok tt
      → close_all f w reason n (is ++ (i ∷ [])) s
        ≡ close_all f w reason (n + length is) (i ∷ []) ((close_all f w reason n is s).0)
  close_all-append w reason n [] i s good =
      ap (λ m. close_all f w reason m (i ∷ []) s) (omega arith)
      ∙ ap (λ t. close_all f w reason (n + 0) (i ∷ []) t) (unfold close_all in refl)
  close_all-append w reason n ((place, price) ∷ is) i s good =
      elim (Option-cases (remove_at place s.open_positions)) [
        | inl e ↦
            let panic = close_all-panic w reason n place price is s e in
            let bad : err "panic" ≡ ok tt = sym (ap (λ t. t.1) panic) ∙ good in absurd (cc)
        | inr (taken, e) ↦
            let call = close_position f (w n) (without_position s taken) (taken.0) price reason in
            let (on, off) = close_all-step w reason n place price is s taken e in
            let (on', off') = close_all-step w reason n place price (is ++ (i ∷ [])) s taken e in
            elim (Result-cases (call.1)) [
              | inl fine ↦
                  on' fine
                  ∙ close_all-append w reason (n + 1) is i (call.0)
                      (sym (ap (λ t. t.1) (on fine)) ∙ good)
                  ∙ ap
                      (λ m.
                        close_all f w reason m (i ∷ [])
                          ((close_all f w reason (n + 1) is (call.0)).0))
                      (omega arith)
                  ∙ ap (λ t. close_all f w reason (n + length ((place, price) ∷ is)) (i ∷ []) (t.0))
                      (sym (on fine))
              | inr (message, bad) ↦
                  let bad' : err message ≡ ok tt = sym (ap (λ t. t.1) (off message bad)) ∙ good in
                  absurd (cc)
            ]
      ]
