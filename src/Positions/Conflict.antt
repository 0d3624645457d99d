-- ===== src/Positions/Conflict.antt =====
-- What services/position_tracker_rust/src/main.rs does when another process writes the bankroll.
use arbees.Prelude.{◌+◌, ◌≡◌, ◌≢◌, sym, ap, ◌∙◌, String, false, arith}
use mathlib.Core.Path.{subst}
use arbees.Prelude.Float.{Float}
use arbees.Engine.State.{ok}
use arbees.Positions.State.{OpenPosition, Bankroll, Account, PositionTracker, World}
use arbees.Positions.Bankroll.{save_from, save_bankroll}
use arbees.Positions.Close.{net_pnl, credit, announce, close_position}

module _ {F : Type 0} (f : Float F) where
  -- Another process writes the row once, in cents, before the first update; nothing fails.
  pub record IsOvertaken (w : World F) (a : Account F) : Type 0 where
    pub trade_done : w.trade_fails ≡ false
    pub published_done : w.publish_fails ≡ false
    pub updates_done : (w.update_fails 0 ≡ false) × (w.update_fails 1 ≡ false)
    pub reload_done : w.reload_fails 0 ≡ false
    pub newer : (w.before_update 0 a.bankroll).version ≢ a.bankroll_version
    pub reloads_it : (b : Bankroll F) → w.before_reload 0 b ≡ b
    pub in_cents :
        (f.cents (w.before_update 0 a.bankroll).balance ≡ (w.before_update 0 a.bankroll).balance)
        × (f.cents (w.before_update 0 a.bankroll).piggybank
            ≡ (w.before_update 0 a.bankroll).piggybank)
    pub then_alone : (b : Bankroll F) → w.before_update 1 b ≡ b

  -- What the other process wrote, with one version more.
  abbrev pub overtaken : Bankroll F → Account F
  overtaken b = record {
    current_balance = b.balance;
    piggybank_balance = b.piggybank;
    bankroll_version = b.version + 1;
    bankroll = record b { version = b.version + 1 };
  }

  save_bankroll-overtaken :
      (w : World F) (a : Account F)
      → IsOvertaken w a
      → save_bankroll f w a ≡ (overtaken (w.before_update 0 a.bankroll), ok tt)
  unfolding save_bankroll save_from
  save_bankroll-overtaken w a v =
      let other = w.before_update 0 a.bankroll in
      let newer = v.newer in
      ground (
        arith,
        v.updates_done,
        v.reload_done,
        newer,
        v.reloads_it other,
        v.then_alone other,
        v.in_cents,
      )

  credit-row :
      (s : PositionTracker F) (pnl : F)
      → ((credit f s.config s.account pnl).bankroll ≡ s.account.bankroll)
        × ((credit f s.config s.account pnl).bankroll_version ≡ s.account.bankroll_version)
  unfolding credit
  credit-row s pnl = ground arith

  credit-IsOvertaken :
      (w : World F) (s : PositionTracker F) (pnl : F)
      → IsOvertaken w s.account
      → IsOvertaken w (credit f s.config s.account pnl)
  credit-IsOvertaken w s pnl v = record {
    trade_done = v.trade_done;
    published_done = v.published_done;
    updates_done = v.updates_done;
    reload_done = v.reload_done;
    reloads_it = v.reloads_it;
    in_cents =
        subst
          (λ b.
            (f.cents (w.before_update 0 b).balance ≡ (w.before_update 0 b).balance)
            × (f.cents (w.before_update 0 b).piggybank ≡ (w.before_update 0 b).piggybank))
          (sym ((credit-row s pnl).0)) v.in_cents;
    then_alone = v.then_alone;
    newer = λ e.
        let (row, version) = credit-row s pnl in
        v.newer (ap (λ b. (w.before_update 0 b).version) (sym row) ∙ e ∙ version);
  }

  -- If another process writes the bankroll once between two savings, in cents, and no statement
  -- fails, a closing reports success, and the tracker and the row hold what the other process wrote,
  -- whatever the position has won or lost.
  pub close_position-lost :
      (w : World F) (s : PositionTracker F) (p : OpenPosition F) (price : F) (reason : String)
      → IsOvertaken w s.account
      → ((close_position f w s p price reason).1 ≡ ok tt)
        × ((close_position f w s p price reason).0.account
            ≡ overtaken (w.before_update 0 s.account.bankroll))
  unfolding close_position announce
  close_position-lost w s p price reason v =
      let pnl = net_pnl f p price in
      let saved =
        save_bankroll-overtaken w (credit f s.config s.account pnl) (credit-IsOvertaken w s pnl v)
        ∙ ap (λ b. (overtaken (w.before_update 0 b), ok tt)) ((credit-row s pnl).0) in
      ground (arith, saved, v.trade_done, v.published_done)
