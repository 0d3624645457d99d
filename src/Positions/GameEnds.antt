-- ===== src/Positions/GameEnds.antt =====
-- What the end of a game leaves of services/position_tracker_rust/src/main.rs.
use text.Mathlib.Text.{◌==◌}
use arbees.Prelude.{
  ℕ, ◌≡◌, Bool, ◌&&◌, if◌then◌else◌, arith, refl, ap, inl, inr, Bool-cases, String, false, not,
  Option, List, [], ◌∷◌, map, filter,
}
use arbees.Prelude.Int.{ltb_ℤ}
use arbees.Prelude.Float.{Float}
use arbees.Prelude.Json.{Json}
use arbees.Engine.State.{ok}
use arbees.Positions.State.{OpenPosition, ClosedPosition, PositionTracker, World}
use arbees.Positions.Close.{closed, close_chosen, reverse}
use arbees.Positions.Settle.{
  GameEnd, teams_match, is_empty, name_at, game_end, settlement, chosen_of_game, handle_game_ended,
}
use arbees.Positions.Settling.{IsQuiet, IsSynced, IsClosed, kept, sold, close_all-IsClosed}

module _ {F V : Type 0} (f : Float F) (j : Json V) (words : String → List String) where
  -- The title of the position names the away team and not the home team.
  abbrev pub backs_away : GameEnd → OpenPosition F → Bool
  backs_away g p =
      let title = j.to_lowercase p.market_title in
      not (not (is_empty g.home_team) && teams_match f j words g.home_team title)
      && not (is_empty g.away_team)
      && teams_match f j words g.away_team title

  -- The price that the score gives: 1 for a win of the team that is backed and 0 otherwise, where the
  -- away team also wins a draw.
  abbrev pub payout : GameEnd → OpenPosition F → F
  payout g p =
      if backs_away g p
      then if ltb_ℤ g.away_score g.home_score then f.ratio 0 1 else f.ratio 1 1
      else if ltb_ℤ g.away_score g.home_score
      then f.ratio 1 1
      else f.ratio 0 1

  settlement-eq-payout : (g : GameEnd) (p : OpenPosition F) → settlement f j words g p ≡ payout g p
  unfolding settlement
  settlement-eq-payout g p = ground arith

  -- What is told of the positions of an ended game, each closed at its payout.
  abbrev pub settled : String → V → List (OpenPosition F) → List (ClosedPosition F)
  settled game_id payload ps =
      map (λ p. closed f p (payout (game_end f j words payload) p) "game_settlement")
        (filter (λ p. p.game_id == game_id) ps)

  abbrev choice : String → V → OpenPosition F → Option F
  choice game_id payload = chosen_of_game f j words game_id (game_end f j words payload)

  kept-eq-filter :
      (game_id : String) (payload : V) (ps : List (OpenPosition F))
      → kept f (choice game_id payload) ps ≡ filter (λ p. not (p.game_id == game_id)) ps
  kept-eq-filter game_id payload [] = refl
  kept-eq-filter game_id payload (p ∷ ps) =
      let rest = kept-eq-filter game_id payload ps in
      elim (Bool-cases (p.game_id == game_id)) [
        | inl e ↦ rw (e, kept) rest
        | inr e ↦ rw (e, kept) (ap (λ t. p ∷ t) rest)
      ]

  sold-eq-settled :
      (game_id : String) (payload : V) (ps : List (OpenPosition F))
      → sold f "game_settlement" (choice game_id payload) ps ≡ settled game_id payload ps
  sold-eq-settled game_id payload [] = refl
  sold-eq-settled game_id payload (p ∷ ps) =
      let rest = sold-eq-settled game_id payload ps in
      elim (Bool-cases (p.game_id == game_id)) [
        | inl e ↦
            rw (e, sold, settlement-eq-payout (game_end f j words payload) p)
              (ap (λ t. closed f p (payout (game_end f j words payload) p) "game_settlement" ∷ t)
                rest)
        | inr e ↦ rw (e, sold) rest
      ]

  -- If the row of the bankroll holds the balances of the tracker in cents, under the version that it
  -- knows, no statement fails and nothing else writes the row, the end of a game succeeds, leaves
  -- exactly the positions of the other games open, in their order, closes each position of the game
  -- once, the last first, at 1 when the team that its title names won and else at 0 (the home team
  -- when it names none, and a draw counts as a win of the away team), counts them, and leaves the
  -- bankroll of the database at the balances of the tracker in cents.
  pub handle_game_ended_lem :
      (w : ℕ → World F) (payload : V) (game_id : String) (s : PositionTracker F)
      → ((n : ℕ) → IsQuiet f (w n))
      → IsSynced f s.account
      → name_at f j words payload "game_id" ≡ game_id
      → is_empty game_id ≡ false
      → ((handle_game_ended f j words w payload s).1 ≡ ok tt)
        × IsClosed f s
            ((handle_game_ended f j words w payload s).0)
            (filter (λ p. not (p.game_id == game_id)) s.open_positions)
            (reverse (settled game_id payload s.open_positions))
  unfolding handle_game_ended close_chosen
  handle_game_ended_lem w payload game_id s q synced named some_game =
      rw
        (
          named,
          some_game,
          ← kept-eq-filter game_id payload s.open_positions,
          ← sold-eq-settled game_id payload s.open_positions,
        )
        (close_all-IsClosed f w "game_settlement" (choice game_id payload) s.open_positions s q
          synced)
