-- ===== src/Scheduler/Intervals.antt =====
-- The summaries of services/notification_service_rust/src/scheduler.rs as activity grows.
use arbees.Prelude.{ℕ, ◌*◌, ◌^◌, ◌≤◌, ◌<◌, ◌≡◌, Bool, false, arith}
use arbees.Prelude.Word.{wrap_i64}
use arbees.NotificationFilter.{Config}
use arbees.Scheduler.{
  AdaptiveScheduler, record_trade, update_context, get_summary_interval, should_skip_summary,
}

-- The intervals grow from active trading over games to idle, and fit in 64 bits in seconds.
pub record IsOrdered (c : Config) : Type 0 where
  pub active_first : c.summary_interval_active_mins ≤ c.summary_interval_games_mins
  pub idle_last : c.summary_interval_games_mins ≤ c.summary_interval_idle_mins
  pub idle_fits : c.summary_interval_idle_mins * 60 < 2 ^ 64

-- With ordered intervals, more games, under way or soon, never make summaries rarer: at the same
-- moment, quiet or not, the interval does not grow and no summary is skipped that was not.
pub update_context_mono :
    (s : AdaptiveScheduler) (trades active active' imminent imminent' now : ℕ) (quiet : Bool)
    → IsOrdered s.config
    → active ≤ active'
    → imminent ≤ imminent'
    → (get_summary_interval (update_context s active' imminent' quiet now)
        ≤ get_summary_interval (update_context s active imminent quiet now))
      × ((should_skip_summary s trades active imminent).0 ≡ false
          → (should_skip_summary s trades active' imminent').0 ≡ false)
unfolding update_context get_summary_interval should_skip_summary
update_context_mono s trades active active' imminent imminent' now quiet o h k = ground arith

-- A trade never makes summaries rarer: with ordered intervals and a window from 1 to 2 ^ 63 - 1
-- minutes, the interval of a context updated at the moment of a trade is at most the one updated
-- at that moment without it.
record_trade_mono :
    (s : AdaptiveScheduler) (active imminent now : ℕ) (quiet : Bool)
    → IsOrdered s.config
    → 0 < s.config.trade_burst_window_mins
    → s.config.trade_burst_window_mins < 2 ^ 63
    → get_summary_interval (update_context (record_trade s now) active imminent quiet now)
      ≤ get_summary_interval (update_context s active imminent quiet now)
unfolding update_context get_summary_interval record_trade wrap_i64
record_trade_mono s active imminent now quiet o w l = ground arith
