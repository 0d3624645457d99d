-- ===== src/Scheduler.antt =====
-- services/notification_service_rust/src/scheduler.rs: how often summaries are sent. Times are
-- nanoseconds since 1970; the minutes that `num_minutes` gives are whole ones, cut towards 0.
pub mod Intervals
mod Tests
use arbees.Prelude.{
  ℕ, ◌+◌, ◌-◌, ◌*◌, ◌/◌, ◌%◌, ◌^◌, String, Bool, true, false, ◌&&◌, Option, none, some, ltb, leb,
  ◌==◌, if◌then◌else◌,
}
use arbees.Prelude.Int.{ℤ, pos, negsuc, sub_ℕ, ltb_ℤ}
use arbees.Prelude.Word.{wrap_i64, u64}
use arbees.NotificationFilter.{Config, is_smart, is_minimal, is_verbose, is_silent}

abbrev pub minute : ℕ
minute = 60_000_000_000

pub data TradingContext : Type 0 where
  active_trading games_in_progress games_imminent idle quiet_hours : TradingContext

pub as_str : TradingContext → String
as_str active_trading = "active_trading"
as_str games_in_progress = "games_in_progress"
as_str games_imminent = "games_imminent"
as_str idle = "idle"
as_str quiet_hours = "quiet_hours"

pub record AdaptiveScheduler : Type 0 where
  pub config : Config
  pub last_trade_time : Option ℕ
  pub current_context : TradingContext

pub new : Config → AdaptiveScheduler
new config = record { config = config; last_trade_time = none; current_context = idle }

pub record_trade : AdaptiveScheduler → ℕ → AdaptiveScheduler
record_trade s now = record s { last_trade_time = some now }

-- `(now - t).num_minutes()`.
abbrev pub minutes_since : ℕ → ℕ → ℤ
minutes_since t now = if leb t now then pos ((now - t) / minute) else sub_ℕ 0 ((t - now) / minute)

abbrev pub is_recent : Config → Option ℕ → ℕ → Bool
is_recent c none now = false
is_recent c (some t) now = ltb_ℤ (minutes_since t now) (wrap_i64 (pos c.trade_burst_window_mins))

abbrev pub context_of : Bool → ℕ → ℕ → TradingContext
context_of recent active_games imminent_games =
    if recent && ltb 0 active_games
    then active_trading
    else if ltb 0 active_games
    then games_in_progress
    else if ltb 0 imminent_games
    then games_imminent
    else idle

-- The context that it returns is the one that it stores.
pub update_context : AdaptiveScheduler → ℕ → ℕ → Bool → ℕ → AdaptiveScheduler
update_context s active_games imminent_games is_quiet_hours now =
    if is_quiet_hours then record s { current_context = quiet_hours } else record s {
      current_context =
          context_of (is_recent s.config s.last_trade_time now) active_games imminent_games;
    }

abbrev pub context_mins : Config → TradingContext → ℕ
context_mins c active_trading = c.summary_interval_active_mins
context_mins c games_in_progress = c.summary_interval_games_mins
context_mins c games_imminent = c.summary_interval_games_mins
context_mins c idle = c.summary_interval_idle_mins
context_mins c quiet_hours = c.summary_interval_idle_mins

-- In seconds.
pub get_summary_interval : AdaptiveScheduler → ℕ
get_summary_interval s =
    if is_verbose s.config.notification_mode
    then u64 (s.config.summary_interval_active_mins * 60)
    else if is_minimal s.config.notification_mode
    then u64 (s.config.summary_interval_idle_mins * 60)
    else u64 (context_mins s.config s.current_context * 60)

pub should_skip_summary : AdaptiveScheduler → ℕ → ℕ → ℕ → Bool × Option String
should_skip_summary s trade_count active_games imminent_games =
    if is_silent s.config.notification_mode
    then (true, some "silent_mode")
    else if is_minimal s.config.notification_mode && trade_count == 0
    then (true, some "minimal_mode_no_trades")
    else if is_smart s.config.notification_mode
        && trade_count == 0
        && active_games == 0
        && imminent_games == 0
    then (true, some "no_activity")
    else (false, none)
