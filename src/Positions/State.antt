-- ===== src/Positions/State.antt =====
-- The state of services/position_tracker_rust/src/main.rs and the row of the bankroll in the
-- database, of which the peak and the trough, which nothing reads, are left out.
use arbees.Prelude.{ℕ, String, Bool, Option, List}
use arbees.Prelude.Dict.{Dict}
use arbees.Engine.State.{Platform, Sport}

pub data TradeSide : Type 0 where
  buy sell : TradeSide

-- `min_hold_seconds` is cut to whole seconds where it is read.
pub record Config (F : Type 0) : Type 0 where
  pub take_profit_pct : F
  pub initial_bankroll : F
  pub min_hold_seconds : ℕ
  pub price_staleness_ttl : F
  pub require_valid_book : Bool
  pub debounce_exit_checks : ℕ
  pub piggybank_pct : F
  pub slippage_buffer_pct : F

pub record OpenPosition (F : Type 0) : Type 0 where
  pub trade_id : String
  pub signal_id : String
  pub game_id : String
  pub sport : Sport
  pub platform : Platform
  pub market_id : String
  pub market_title : String
  pub side : TradeSide
  pub entry_price : F
  pub size : F
  pub entry_time : ℕ
  pub contract_team : Option String
  pub entry_fees : F

pub record CachedPrice (F : Type 0) : Type 0 where
  pub yes_bid : F
  pub yes_ask : F
  pub updated_at : ℕ

-- What is published of a position that has closed.
pub record ClosedPosition (F : Type 0) : Type 0 where
  pub position : OpenPosition F
  pub exit_price : F
  pub exit_reason : String
  pub realized_pnl : F
  pub fees_paid : F

-- The row of the bankroll.
pub record Bankroll (F : Type 0) : Type 0 where
  pub balance : F
  pub piggybank : F
  pub version : ℕ

-- The balances that the tracker holds, and the row that it and other processes write.
pub record Account (F : Type 0) : Type 0 where
  pub current_balance : F
  pub piggybank_balance : F
  pub bankroll_version : ℕ
  pub bankroll : Bankroll F

-- The tracker, with what it has published.
pub record PositionTracker (F : Type 0) : Type 0 where
  pub config : Config F
  pub open_positions : List (OpenPosition F)
  pub positions_opened : ℕ
  pub positions_closed : ℕ
  pub exit_trigger_counts : Dict ℕ
  pub game_cooldowns : Dict (ℕ × Bool)
  pub account : Account F
  pub price_cache : Dict (Dict (CachedPrice F))
  pub published : List (ClosedPosition F)

-- What the database and other processes do to one closing: which statements fail, and what is
-- written to the row before each attempt of the update and before each reload.
pub record World (F : Type 0) : Type 0 where
  pub now : ℕ
  pub trade_fails : Bool
  pub publish_fails : Bool
  pub update_fails : ℕ → Bool
  pub reload_fails : ℕ → Bool
  pub before_update : ℕ → Bankroll F → Bankroll F
  pub before_reload : ℕ → Bankroll F → Bankroll F
