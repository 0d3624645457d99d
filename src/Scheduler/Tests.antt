-- ===== src/Scheduler/Tests.antt =====
-- Contexts of services/notification_service_rust/src/scheduler.rs.
use arbees.Prelude.{◌≤◌, ◌≡◌, false, true, none, arith}
use arbees.NotificationFilter.{Config, smart, warning}
use arbees.Scheduler.{
  AdaptiveScheduler, idle, update_context, get_summary_interval, should_skip_summary,
}
use arbees.Scheduler.Intervals.{IsOrdered, update_context_mono}

abbrev config_1 : Config
config_1 = record {
  quiet_hours_enabled = false;
  quiet_hours_start = 0;
  quiet_hours_end = 0;
  quiet_hours_min_priority = warning;
  rate_limit_max_per_minute = 10;
  rate_limit_window = 60_000_000_000;
  rate_limit_bypass_critical = true;
  notification_mode = smart;
  summary_interval_active_mins = 15;
  summary_interval_games_mins = 30;
  summary_interval_idle_mins = 240;
  trade_burst_window_mins = 10;
}

config_1-IsOrdered : IsOrdered config_1
config_1-IsOrdered = record {
  active_first = omega arith;
  idle_last = omega arith;
  idle_fits = omega arith;
}

abbrev scheduler_1 : AdaptiveScheduler
scheduler_1 = record { config = config_1; last_trade_time = none; current_context = idle }

update_context_mono_example :
    (get_summary_interval (update_context scheduler_1 1 0 false 5)
      ≤ get_summary_interval (update_context scheduler_1 0 0 false 5))
    × ((should_skip_summary scheduler_1 2 0 0).0 ≡ false
        → (should_skip_summary scheduler_1 2 1 0).0 ≡ false)
update_context_mono_example =
    update_context_mono scheduler_1 2 0 1 0 0 5 false config_1-IsOrdered (omega arith) (omega arith)
