-- ===== src/Positions/Bankroll.antt =====
-- `save_bankroll` of services/position_tracker_rust/src/main.rs, where the row exists.
use arbees.Prelude.{ℕ, zero, suc, ◌+◌, true, false, ◌==◌}
use arbees.Prelude.Float.{Float}
use arbees.Engine.State.{Result, ok, err}
use arbees.Positions.State.{Bankroll, Account, World}

abbrev pub max_retries : ℕ
max_retries = 3

module _ {F : Type 0} (f : Float F) where
  -- What the update writes where the version is the one that the tracker knows: the columns keep
  -- two decimals.
  abbrev pub written : Account F → Account F
  written s = record s {
    bankroll = record {
      balance = f.cents s.current_balance;
      piggybank = f.cents s.piggybank_balance;
      version = s.bankroll.version + 1;
    };
    bankroll_version = s.bankroll.version + 1;
  }

  -- The tracker takes the row for its own.
  abbrev pub reloaded : Account F → Account F
  reloaded s = record s {
    current_balance = s.bankroll.balance;
    piggybank_balance = s.bankroll.piggybank;
    bankroll_version = s.bankroll.version;
  }

  abbrev pub others_write : (Bankroll F → Bankroll F) → Account F → Account F
  others_write change s = record s { bankroll = change s.bankroll }

  -- From one attempt on, with as many as are left.
  unfoldable pub save_from :
      World F → (attempt left : ℕ) → Account F → Account F × Result (Unit {0})
  save_from w attempt zero s = (s, err "Bankroll save failed due to concurrent modifications")
  save_from w attempt (suc left) s =
      let s1 = others_write (w.before_update attempt) s in
      elim (w.update_fails attempt) [
        | true ↦ (s1, err "update failed")
        | false ↦ elim (s1.bankroll.version == s1.bankroll_version) [
          | true ↦ (written s1, ok tt)
          | false ↦ elim left [
            | zero ↦ (s1, err "Bankroll save failed due to concurrent modifications")
            | suc more ↦
                let s2 = others_write (w.before_reload attempt) s1 in
                elim (w.reload_fails attempt) [
                  | true ↦ (s2, err "reload failed")
                  | false ↦ save_from w (attempt + 1) left (reloaded s2)
                ]
          ]
        ]
      ]

  unfoldable pub save_bankroll : World F → Account F → Account F × Result (Unit {0})
  save_bankroll w s = save_from w 0 max_retries s
