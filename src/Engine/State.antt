-- ===== src/Engine/State.antt =====
-- The data of services/execution_service_rust/src/engine.rs and of the requests and results in
-- rust_core/src/models/mod.rs. Times are nanoseconds since 1970, an `f64` has the type `F`.
use arbees.Prelude.{ℕ, String, Bool, Option}
use arbees.Prelude.Int.{ℤ}
use arbees.RateLimiter.{RateLimiter}
use arbees.KillSwitch.{KillSwitch}
use arbees.Idempotency.{IdempotencyTracker}

pub data Platform : Type 0 where
  kalshi polymarket paper : Platform

pub data ExecutionSide : Type 0 where
  yes no : ExecutionSide

pub data ExecutionStatus : Type 0 where
  pending accepted rejected filled partial cancelled failed : ExecutionStatus

pub data Sport : Type 0 where
  nba ncaab nfl ncaaf nhl mlb mls soccer tennis mma : Sport

-- The fields `model_prob`, `market_prob`, `reason` and `expires_at` are not read.
pub record ExecutionRequest (F : Type 0) : Type 0 where
  pub request_id : String
  pub idempotency_key : String
  pub game_id : String
  pub sport : Sport
  pub platform : Platform
  pub market_id : String
  pub contract_team : Option String
  pub token_id : Option String
  pub side : ExecutionSide
  pub limit_price : F
  pub size : F
  pub signal_id : String
  pub signal_type : String
  pub edge_pct : F
  pub created_at : ℕ

pub record ExecutionResult (F : Type 0) : Type 0 where
  pub request_id : String
  pub idempotency_key : String
  pub status : ExecutionStatus
  pub rejection_reason : Option String
  pub order_id : Option String
  pub filled_qty : F
  pub avg_price : F
  pub fees : F
  pub platform : Platform
  pub market_id : String
  pub contract_team : Option String
  pub game_id : String
  pub sport : Sport
  pub signal_id : String
  pub signal_type : String
  pub edge_pct : F
  pub side : ExecutionSide
  pub requested_at : ℕ
  pub executed_at : ℕ
  pub latency_ms : F

pub data RejectionReason : Type 0 where
  kill_switch_active duplicate_request : RejectionReason
  rate_limit_exceeded : (message : String) → RejectionReason
  insufficient_balance : (message : String) → RejectionReason
  order_size_exceeded : (message : String) → RejectionReason
  price_sanity_failed : (message : String) → RejectionReason
  credentials_not_configured : (message : String) → RejectionReason

-- The limits that the engine reads.
pub record SafeguardConfig (F : Type 0) : Type 0 where
  pub max_order_size : F
  pub max_order_contracts : ℤ
  pub max_orders_per_minute : ℕ
  pub max_orders_per_hour : ℕ
  pub min_safe_price : F
  pub max_safe_price : F
  pub max_daily_loss : F

pub record PlatformBalance (F : Type 0) : Type 0 where
  pub balance : F
  pub last_updated : ℕ
  pub is_stale : Bool

pub record BalanceCache (F : Type 0) : Type 0 where
  pub kalshi_balance : PlatformBalance F
  pub polymarket_balance : PlatformBalance F

-- A value or the text of an error.
pub data Result {ℓ} (A : Type ℓ) : Type ℓ where
  ok : A → Result A
  err : String → Result A

pub record KalshiOrder : Type 0 where
  pub order_id : String
  pub count : ℤ
  pub remaining_count : Option ℤ

pub record PolyFill (F : Type 0) : Type 0 where
  pub order_id : String
  pub filled_size : F
  pub fill_cost : F

-- What the world gives to one call: readings of the clock, the time at which an order reaches the
-- exchange, which is no reading, a random identifier, whether the file
-- of the kill switch exists, and what the exchanges answer.
pub record World (F : Type 0) : Type 0 where
  pub started_at : ℕ
  pub limited_at : ℕ
  pub keyed_at : ℕ
  pub sent_at : ℕ
  pub left_at : ℕ
  pub done_at : ℕ
  pub uuid : String
  pub file_exists : Bool
  pub place_ioc_order : String → String → F → ℤ → Result KalshiOrder
  pub buy_fak : String → F → F → Result (PolyFill F)
  pub sell_fak : String → F → F → Result (PolyFill F)

-- The orders that leave the program.
pub data Order (F : Type 0) : Type 0 where
  ioc : (market_id side : String) (price : F) (quantity : ℤ) → Order F
  buy : (token_id : String) (price size : F) → Order F
  sell : (token_id : String) (price size : F) → Order F

pub record ExecutionEngine (F : Type 0) : Type 0 where
  pub has_credentials : Bool
  pub has_executor : Bool
  pub paper_trading : Bool
  pub config : SafeguardConfig F
  pub rate_limiter : RateLimiter
  pub kill_switch : KillSwitch
  pub idempotency : IdempotencyTracker
  pub balance_cache : BalanceCache F
