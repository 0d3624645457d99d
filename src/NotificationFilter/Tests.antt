-- ===== src/NotificationFilter/Tests.antt =====
-- Runs of the filter of services/notification_service_rust/src/filters.rs.
use arbees.Prelude.{◌≤◌, ◌≡◌, refl, true, length, List, [], ◌∷◌, arith}
use arbees.Prelude.Count.{within}
use arbees.NotificationFilter.{
  Config, NotificationFilter, new, info, warning, critical, smart, check_rate_limit, should_notify,
  is_in_quiet_hours, Request, run,
}
use arbees.NotificationFilter.Rate.{InOrder, counted, run_sent_windows}

-- Quiet from 22:00 to 7:00 for all below warning; two notifications in a minute.
abbrev cfg : Config
cfg = record {
  quiet_hours_enabled = true;
  quiet_hours_start = 79_200_000_000_000;
  quiet_hours_end = 25_200_000_000_000;
  quiet_hours_min_priority = warning;
  rate_limit_max_per_minute = 2;
  rate_limit_window = 60_000_000_000;
  rate_limit_bypass_critical = true;
  notification_mode = smart;
  summary_interval_active_mins = 15;
  summary_interval_games_mins = 30;
  summary_interval_idle_mins = 240;
  trade_burst_window_mins = 10;
}

abbrev filter_1 : NotificationFilter
filter_1 = record { cfg = cfg; sent_timestamps = [] }

-- At midnight: one of no importance, three warnings in a second, and a critical one.
abbrev night : List Request
night =
    record { priority = info; now_local = 0; now = 1_000_000_000 }
    ∷ record { priority = warning; now_local = 0; now = 1_000_000_000 }
    ∷ record { priority = warning; now_local = 0; now = 1_100_000_000 }
    ∷ record { priority = warning; now_local = 0; now = 1_200_000_000 }
    ∷ record { priority = critical; now_local = 0; now = 1_300_000_000 }
    ∷ []

night-InOrder : InOrder 0 night
unfolding InOrder
night-InOrder = (omega arith, (omega arith, (omega arith, (omega arith, (omega arith, tt)))))

-- The first and the fourth are refused.
night_sent : length ((run filter_1 night).1) ≡ 3
unfolding run should_notify check_rate_limit is_in_quiet_hours
night_sent = refl

run_sent_windows_example :
    within 60_000_000_000 1_000_000_000 (counted cfg ((run (new cfg) night).1)) ≤ 2
run_sent_windows_example = run_sent_windows cfg night night-InOrder 1_000_000_000
