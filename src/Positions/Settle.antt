-- ===== src/Positions/Settle.antt =====
-- `handle_execution_result`, `handle_game_ended` and `sweep_orphaned_positions` of
-- services/position_tracker_rust/src/main.rs. What splits a text into words is a parameter.
use text.Mathlib.Text.{◌==◌}
use arbees.Prelude.{
  ℕ, ◌+◌, String, Bool, false, not, ◌&&◌, ◌||◌, Option, none, some, List, [], ◌∷◌, ◌++◌,
  if◌then◌else◌,
}
use arbees.Prelude.Int.{ℤ, pos, ltb_ℤ}
use arbees.Prelude.Word.{wrap_i32}
use arbees.Prelude.Float.{Float, zero_of}
use arbees.Prelude.Json.{Json, and_then, unwrap_or}
use arbees.Prelude.Text.{contains}
use arbees.Engine.State.{ExecutionSide, yes, no, ExecutionResult, Result, ok}
use arbees.Engine.Execute.{was_filled}
use arbees.Positions.State.{TradeSide, buy, sell, OpenPosition, PositionTracker, World}
use arbees.Positions.Close.{close_chosen}

abbrev pub trade_side : ExecutionSide → TradeSide
trade_side yes = buy
trade_side no = sell

abbrev pub last {ℓ} : {A : Type ℓ} → List A → Option A
last [] = none
last (x ∷ []) = some x
last (x ∷ y ∷ xs) = last (y ∷ xs)

abbrev pub is_empty : String → Bool
is_empty s = s == ""

pub record GameEnd : Type 0 where
  pub home_team : String
  pub away_team : String
  pub home_score : ℤ
  pub away_score : ℤ

module _ {F V : Type 0} (f : Float F) (j : Json V) (words : String → List String) where
  -- The insertion into the database and what is published are left out.
  pub handle_execution_result : PositionTracker F → ExecutionResult F → PositionTracker F
  handle_execution_result s r =
      if was_filled r.status
      then record s {
        positions_opened = s.positions_opened + 1;
        open_positions =
            s.open_positions
            ++ (record {
              trade_id = unwrap_or r.order_id r.request_id;
              signal_id = r.signal_id;
              game_id = r.game_id;
              sport = r.sport;
              platform = r.platform;
              market_id = r.market_id;
              market_title = unwrap_or r.contract_team "";
              side = trade_side r.side;
              entry_price = r.avg_price;
              size = r.filled_qty;
              entry_time = r.executed_at;
              contract_team = r.contract_team;
              entry_fees = r.fees;
            }
                ∷ []);
      }
      else s

  same_last : Option String → Option String → Bool
  same_last (some a) (some b) = a == b
  same_last _ _ = false

  pub teams_match : String → String → Bool
  unfolding same_last
  teams_match team1 team2 =
      let t1 = j.to_lowercase team1 in
      let t2 = j.to_lowercase team2 in
      not (is_empty team1)
      && not (is_empty team2)
      && (t1 == t2
          || contains t1 t2
          || contains t2 t1
          || same_last (last (words t1)) (last (words t2)))

  -- The price that a position of an ended game settles at.
  unfoldable pub settlement : GameEnd → OpenPosition F → F
  settlement g p =
      let home_won = ltb_ℤ g.away_score g.home_score in
      let title = j.to_lowercase p.market_title in
      let team_won =
        if not (is_empty g.home_team) && teams_match g.home_team title
        then home_won
        else if not (is_empty g.away_team) && teams_match g.away_team title
        then not home_won
        else home_won in
      if team_won then f.ratio 1 1 else zero_of f

  abbrev pub score_at : V → String → ℤ
  score_at payload name = wrap_i32 (unwrap_or (and_then (j.get payload name) j.as_i64) (pos 0))

  abbrev pub name_at : V → String → String
  name_at payload name = unwrap_or (and_then (j.get payload name) j.as_str) ""

  pub game_end : V → GameEnd
  game_end payload = record {
    home_team = name_at payload "home_team";
    away_team = name_at payload "away_team";
    home_score = score_at payload "home_score";
    away_score = score_at payload "away_score";
  }

  abbrev pub chosen_of_game : String → GameEnd → OpenPosition F → Option F
  chosen_of_game game_id g p = if p.game_id == game_id then some (settlement g p) else none

  unfoldable pub handle_game_ended :
      (ℕ → World F) → V → PositionTracker F → PositionTracker F × Result (Unit {0})
  handle_game_ended w payload s =
      let game_id = name_at payload "game_id" in
      if is_empty game_id
      then (s, ok tt)
      else close_chosen f w "game_settlement" (chosen_of_game game_id (game_end payload)) s

  -- The ended games among those of the positions, as the database gives them.
  abbrev pub chosen_of_ended : (String → Option GameEnd) → OpenPosition F → Option F
  chosen_of_ended ended p =
      if is_empty p.game_id then none else and_then (ended p.game_id) (λ g. some (settlement g p))

  pub sweep_orphaned_positions :
      (ℕ → World F)
      → (String → Option GameEnd)
      → PositionTracker F
      → PositionTracker F × Result (Unit {0})
  sweep_orphaned_positions w ended s =
      close_chosen f w "orphan_settlement" (chosen_of_ended ended) s
