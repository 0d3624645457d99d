-- ===== src/Positions/Close.antt =====
-- `close_position` of services/position_tracker_rust/src/main.rs, and the loop that closes positions
-- by their places, from the last one on.
use arbees.Prelude.{
  ℕ, zero, suc, ◌+◌, String, ◌&&◌, Option, none, some, List, [], ◌∷◌, ◌++◌, if◌then◌else◌,
}
use arbees.Prelude.Dict.{insert}
use arbees.Prelude.Float.{Float, zero_of}
use arbees.Engine.State.{Platform, kalshi, polymarket, paper, Result, ok, err}
use arbees.Positions.State.{
  buy, sell, Config, OpenPosition, ClosedPosition, Account, PositionTracker, World,
}
use arbees.Positions.Bankroll.{save_bankroll}

-- `Vec::remove`, with what it takes out.
abbrev pub remove_at {ℓ} : {A : Type ℓ} → ℕ → List A → Option (A × List A)
remove_at n [] = none
remove_at zero (x ∷ xs) = some (x, xs)
remove_at (suc n) (x ∷ xs) = elim (remove_at n xs) [
  | none ↦ none
  | some taken ↦ some (taken.0, x ∷ taken.1)
]

module _ {F : Type 0} (f : Float F) where
  abbrev pub exit_fee_rate : Platform → F
  exit_fee_rate kalshi = f.ratio 7 1_000
  exit_fee_rate polymarket = f.ratio 2 100
  exit_fee_rate paper = f.ratio 7 1_000

  abbrev pub gross_pnl : OpenPosition F → F → F
  gross_pnl p exit_price = elim p.side [
    | buy ↦ f.mul p.size (f.sub exit_price p.entry_price)
    | sell ↦ f.mul p.size (f.sub p.entry_price exit_price)
  ]

  abbrev pub total_fees : OpenPosition F → F → F
  total_fees p exit_price =
      f.add p.entry_fees (f.mul (f.mul p.size exit_price) (exit_fee_rate p.platform))

  pub net_pnl : OpenPosition F → F → F
  net_pnl p exit_price = f.sub (gross_pnl p exit_price) (total_fees p exit_price)

  -- The profit or the loss, with its share for the piggybank.
  unfoldable pub credit : Config F → Account F → F → Account F
  credit c a pnl =
      if f.lt (zero_of f) pnl && f.lt (zero_of f) c.piggybank_pct
      then record a {
        piggybank_balance = f.add a.piggybank_balance (f.mul pnl c.piggybank_pct);
        current_balance = f.add a.current_balance (f.sub pnl (f.mul pnl c.piggybank_pct));
      }
      else record a { current_balance = f.add a.current_balance pnl }

  abbrev pub closed : OpenPosition F → F → String → ClosedPosition F
  closed p exit_price exit_reason = record {
    position = p;
    exit_price = exit_price;
    exit_reason = exit_reason;
    realized_pnl = net_pnl p exit_price;
    fees_paid = total_fees p exit_price;
  }

  -- What follows once the bankroll is saved.
  unfoldable pub announce :
      World F
      → PositionTracker F
      → OpenPosition F
      → F
      → String
      → PositionTracker F × Result (Unit {0})
  announce w s p exit_price exit_reason =
      let s' = record s {
        game_cooldowns =
            insert p.game_id (w.now, f.lt (zero_of f) (net_pnl p exit_price)) s.game_cooldowns;
      } in
      if w.publish_fails
      then (s', err "publish failed")
      else (record s' { published = s.published ++ (closed p exit_price exit_reason ∷ []) }, ok tt)

  unfoldable pub close_position :
      World F
      → PositionTracker F
      → OpenPosition F
      → F
      → String
      → PositionTracker F × Result (Unit {0})
  close_position w s p exit_price exit_reason =
      let credited = credit s.config s.account (net_pnl p exit_price) in
      let counted = record s { positions_closed = s.positions_closed + 1 } in
      if w.trade_fails
      then (record counted { account = credited }, err "update failed")
      else (let (account, saved) = save_bankroll f w credited in
          elim saved [
            | err e ↦ (record counted { account = account }, err e)
            | ok u ↦ announce w (record counted { account = account }) p exit_price exit_reason
          ])

  -- The first error ends it. A place that does not exist is a panic of `Vec::remove`. The closings
  -- are numbered, and each has a world of its own.
  unfoldable pub close_all :
      (ℕ → World F)
      → String
      → ℕ
      → List (ℕ × F)
      → PositionTracker F
      → PositionTracker F × Result (Unit {0})
  close_all w exit_reason n [] s = (s, ok tt)
  close_all w exit_reason n ((place, exit_price) ∷ rest) s =
      elim (remove_at place s.open_positions) [
        | none ↦ (s, err "panic")
        | some taken ↦
            let (s', result) =
              close_position (w n) (record s { open_positions = taken.1 }) (taken.0) exit_price
                exit_reason in
            let (s'', end) = close_all w exit_reason (n + 1) rest s' in
            elim result [ err e ↦ (s', err e) | ok u ↦ (s'', end) ]
      ]

-- The places of the items that something is chosen for, with what that is.
unfoldable pub places {ℓ κ} : {A : Type ℓ} {B : Type κ} → (A → Option B) → ℕ → List A → List (ℕ × B)
places choose n [] = []
places choose n (x ∷ xs) = elim (choose x) [
  | none ↦ places choose (n + 1) xs
  | some b ↦ (n, b) ∷ places choose (n + 1) xs
]

-- `into_iter().rev()`.
abbrev pub reverse {ℓ} : {A : Type ℓ} → List A → List A
reverse [] = []
reverse (x ∷ xs) = reverse xs ++ (x ∷ [])

-- Closes the positions that a price is chosen for, the last one first.
unfoldable pub close_chosen :
    {F : Type 0}
    → Float F
    → (ℕ → World F)
    → String
    → (OpenPosition F → Option F)
    → PositionTracker F
    → PositionTracker F × Result (Unit {0})
close_chosen f w exit_reason choose s =
    close_all f w exit_reason 0 (reverse (places choose 0 s.open_positions)) s
