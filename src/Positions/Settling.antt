-- ===== src/Positions/Settling.antt =====
-- What the end of a game does to the positions of services/position_tracker_rust/src/main.rs, while
-- the database answers and nothing else writes the bankroll.
use arbees.Prelude.{
  ℕ, ◌+◌, ◌≡◌, refl, sym, ap, ◌∙◌, inl, inr, Option-cases, String, false, Option, none, some, List,
  [], ◌∷◌, ◌++◌, length, append_assoc, append_nil, arith,
}
use mathlib.Core.Path.{subst}
use arbees.Prelude.Float.{Float}
use arbees.Engine.State.{Result, ok}
use arbees.Positions.State.{OpenPosition, ClosedPosition, Bankroll, Account, PositionTracker, World}
use arbees.Positions.Bankroll.{save_from, save_bankroll}
use arbees.Positions.Close.{
  net_pnl, credit, closed, announce, close_position, close_all, places, reverse,
}
use arbees.Positions.Closing.{
  later, reverse-later, places-suc, front, close_all-step, close_all-front, close_all-append,
}

module _ {F : Type 0} (f : Float F) where
  -- Nothing fails, and nothing else writes the row before the first update.
  pub record IsQuiet (w : World F) : Type 0 where
    pub trade_done : w.trade_fails ≡ false
    pub published_done : w.publish_fails ≡ false
    pub update_done : w.update_fails 0 ≡ false
    pub untouched : (b : Bankroll F) → w.before_update 0 b ≡ b

  -- The tracker knows the version of the row, which holds its balances in cents.
  pub record IsSynced (a : Account F) : Type 0 where
    pub same_version : a.bankroll.version ≡ a.bankroll_version
    pub same_balance : a.bankroll.balance ≡ f.cents a.current_balance
    pub same_piggybank : a.bankroll.piggybank ≡ f.cents a.piggybank_balance

  save_bankroll-IsSynced :
      (w : World F) (a : Account F)
      → IsQuiet w
      → a.bankroll.version ≡ a.bankroll_version
      → ((save_bankroll f w a).1 ≡ ok tt) × IsSynced ((save_bankroll f w a).0)
  unfolding save_bankroll save_from
  save_bankroll-IsSynced w a q same = ground (arith, q.update_done, q.untouched a.bankroll)

  -- What one closing that goes well leaves.
  pub record IsClosed (s s' : PositionTracker F) (left : List (OpenPosition F))
      (sold : List (ClosedPosition F)) : Type 0 where
    pub still_open : s'.open_positions ≡ left
    pub told : s'.published ≡ s.published ++ sold
    pub counted : s'.positions_closed ≡ s.positions_closed + length sold
    pub synced : IsSynced s'.account

  credit-version :
      (s : PositionTracker F) (pnl : F)
      → ((credit f s.config s.account pnl).bankroll ≡ s.account.bankroll)
        × ((credit f s.config s.account pnl).bankroll_version ≡ s.account.bankroll_version)
  unfolding credit
  credit-version s pnl = ground arith

  -- The account after a closing.
  abbrev account_after : World F → PositionTracker F → OpenPosition F → F → Account F
  account_after w s p price =
      (save_bankroll f w (credit f s.config s.account (net_pnl f p price))).0

  close_position-outcome :
      (w : World F) (s : PositionTracker F) (p : OpenPosition F) (price : F) (reason : String)
      → IsQuiet w
      → (save_bankroll f w (credit f s.config s.account (net_pnl f p price))).1 ≡ ok tt
      → ((close_position f w s p price reason).1 ≡ ok tt)
        × ((close_position f w s p price reason).0.open_positions ≡ s.open_positions)
        × ((close_position f w s p price reason).0.published
            ≡ s.published ++ (closed f p price reason ∷ []))
        × ((close_position f w s p price reason).0.positions_closed ≡ s.positions_closed + 1)
        × ((close_position f w s p price reason).0.account ≡ account_after w s p price)
  unfolding close_position announce
  close_position-outcome w s p price reason q saved =
      ground (arith, q.trade_done, q.published_done, saved)

  close_position-IsClosed :
      (w : World F) (s : PositionTracker F) (p : OpenPosition F) (price : F) (reason : String)
      → IsQuiet w
      → s.account.bankroll.version ≡ s.account.bankroll_version
      → ((close_position f w s p price reason).1 ≡ ok tt)
        × IsClosed s
            ((close_position f w s p price reason).0)
            s.open_positions
            (closed f p price reason ∷ [])
  close_position-IsClosed w s p price reason q same =
      let a = credit f s.config s.account (net_pnl f p price) in
      let (row, version) = credit-version s (net_pnl f p price) in
      let known : a.bankroll.version ≡ a.bankroll_version =
        ap (λ b. b.version) row ∙ same ∙ sym version in
      let (saved, synced) = save_bankroll-IsSynced w a q known in
      let (done, left, told, counted, account) =
        close_position-outcome w s p price reason q saved in
      (
        done,
        record { still_open = left; told = told; counted = counted; synced = rw account synced },
      )

  -- The positions that no price is chosen for, and those that one is, as they are told.
  abbrev pub kept : (OpenPosition F → Option F) → List (OpenPosition F) → List (OpenPosition F)
  kept choose [] = []
  kept choose (p ∷ ps) = elim (choose p) [ none ↦ p ∷ kept choose ps | some price ↦ kept choose ps ]

  abbrev pub sold :
      String → (OpenPosition F → Option F) → List (OpenPosition F) → List (ClosedPosition F)
  sold reason choose [] = []
  sold reason choose (p ∷ ps) = elim (choose p) [
    | none ↦ sold reason choose ps
    | some price ↦ closed f p price reason ∷ sold reason choose ps
  ]

  length-snoc :
      (xs : List (ClosedPosition F)) (c : ClosedPosition F)
      → length (xs ++ (c ∷ [])) ≡ length xs + 1
  length-snoc [] c = refl
  length-snoc (x ∷ xs) c = omega (arith, length-snoc xs c)

  -- One more closing.
  IsClosed-snoc :
      (s s' s'' : PositionTracker F) (left : List (OpenPosition F)) (sold : List (ClosedPosition F))
      (c : ClosedPosition F)
      → IsClosed s s' left sold
      → IsClosed s' s'' s'.open_positions (c ∷ [])
      → IsClosed s s'' left (sold ++ (c ∷ []))
  IsClosed-snoc s s' s'' left sold c v v' = record {
    still_open = v'.still_open ∙ v.still_open;
    told = v'.told ∙ ap (λ t. t ++ (c ∷ [])) v.told ∙ append_assoc s.published sold (c ∷ []);
    counted = omega (arith, v.counted, v'.counted, length-snoc sold c);
    synced = v'.synced;
  }

  places-skip :
      (choose : OpenPosition F → Option F) (p : OpenPosition F) (ps : List (OpenPosition F))
      → choose p ≡ none
      → reverse (places choose 0 (p ∷ ps)) ≡ later (reverse (places choose 0 ps))
  unfolding places
  places-skip choose p ps e =
      rw (e, places) (ap reverse (places-suc choose 0 ps) ∙ reverse-later (places choose 0 ps))

  places-take :
      (choose : OpenPosition F → Option F) (p : OpenPosition F) (ps : List (OpenPosition F))
      (price : F)
      → choose p ≡ some price
      → reverse (places choose 0 (p ∷ ps))
        ≡ later (reverse (places choose 0 ps)) ++ ((0, price) ∷ [])
  unfolding places
  places-take choose p ps price e =
      rw (e, places)
        (ap (λ t. t ++ ((0, price) ∷ []))
          (ap reverse (places-suc choose 0 ps) ∙ reverse-later (places choose 0 ps)))

  abbrev pub with_open : List (OpenPosition F) → PositionTracker F → PositionTracker F
  with_open ps s = record s { open_positions = ps }

  -- From an account in step, a loop without failures closes the chosen positions, the last first.
  abbrev pub Done :
      PositionTracker F
      → PositionTracker F × Result (Unit {0})
      → List (OpenPosition F)
      → List (ClosedPosition F)
      → Type 0
  Done s (s', r) left sold = (r ≡ ok tt) × IsClosed s s' left sold

  -- The position in front is closed after all others.
  close_first :
      (w : ℕ → World F) (reason : String) (n : ℕ) (is : List (ℕ × F)) (p : OpenPosition F)
      (price : F) (s t : PositionTracker F) (left : List (OpenPosition F))
      (sold : List (ClosedPosition F))
      → ((n : ℕ) → IsQuiet (w n))
      → Done s (close_all f w reason n is t) left sold
      → Done s
          (close_all f w reason n (later is ++ ((0, price) ∷ [])) (front f p t))
          left
          (sold ++ (closed f p price reason ∷ []))
  close_first w reason n is p price s t left sold q (good, c) =
      let end = (close_all f w reason n is t).0 in
      let m = n + length (later is) in
      let past = close_all-front f w reason n is p t in
      let appended =
        close_all-append f w reason n (later is) (0, price) (front f p t)
          (ap (λ r. r.1) past ∙ good) in
      let (done, c') =
        close_position-IsClosed (w m) end p price reason (q m) c.synced.same_version in
      let (on, off) =
        close_all-step f w reason m 0 price [] (front f p end) (p, end.open_positions) refl in
      let call = close_position f (w m) end p price reason in
      let path : close_all f w reason n (later is ++ ((0, price) ∷ [])) (front f p t)
          ≡ (call.0, ok tt) =
        appended
        ∙ ap (λ r. close_all f w reason m ((0, price) ∷ []) (r.0)) past
        ∙ on done
        ∙ (unfold close_all in refl) in
      subst (λ r. Done s r left (sold ++ (closed f p price reason ∷ []))) (sym path)
        (refl, IsClosed-snoc s end (call.0) left sold (closed f p price reason) c c')

  -- From an account in step, a loop without failures closes the chosen positions, the last first.
  pub close_all-IsClosed :
      (w : ℕ → World F) (reason : String) (choose : OpenPosition F → Option F)
      (ps : List (OpenPosition F)) (s : PositionTracker F)
      → ((n : ℕ) → IsQuiet (w n))
      → IsSynced s.account
      → Done s
          (close_all f w reason 0 (reverse (places choose 0 ps)) (with_open ps s))
          (kept choose ps)
          (reverse (sold reason choose ps))
  close_all-IsClosed w reason choose [] s q synced =
      unfold places close_all in
      (
        refl,
        record {
          still_open = refl;
          told = sym (append_nil s.published);
          counted = omega arith;
          synced = synced;
        },
      )
  close_all-IsClosed w reason choose (p ∷ ps) s q synced =
      let is = reverse (places choose 0 ps) in
      let (good, c) = close_all-IsClosed w reason choose ps s q synced in
      elim (Option-cases (choose p)) [
        | inl e ↦
            let past = close_all-front f w reason 0 is p (with_open ps s) in
            rw (places-skip choose p ps e, e, kept, sold)
              (subst (λ r. Done s r (p ∷ kept choose ps) (reverse (sold reason choose ps)))
                (sym past)
                (
                  good,
                  record {
                    still_open = ap (λ t. p ∷ t) c.still_open;
                    told = c.told;
                    counted = c.counted;
                    synced = c.synced;
                  },
                ))
        | inr (price, e) ↦
            rw (places-take choose p ps price e, e, kept, sold)
              (close_first w reason 0 is p price s (with_open ps s) (kept choose ps)
                (reverse (sold reason choose ps)) q (good, c))
      ]
