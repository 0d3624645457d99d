-- ===== src/NotificationFilter/QuietHours.antt =====
-- The quiet hours of services/notification_service_rust/src/filters.rs, and who passes in them.
use arbees.Prelude.{ℕ, ◌+◌, ◌-◌, ◌%◌, ◌≤◌, ◌<◌, ◌≡◌, ◌↔◌, ◌⊎◌, true, false, arith, none}
use arbees.NotificationFilter.{
  NotificationFilter, NotificationPriority, critical, rank, is_in_quiet_hours, check_rate_limit,
  should_notify, should_send_summary,
}

abbrev pub day : ℕ
day = 86_400_000_000_000

-- For times of one day, and enabled quiet hours, it is quiet exactly when the clock, set so that
-- the quiet hours start at midnight, has not reached their end: hours that run over midnight are
-- one stretch, and a start that is the end makes no quiet hours.
is_in_quiet_hours_lem :
    (f : NotificationFilter) (now_local : ℕ)
    → f.cfg.quiet_hours_enabled ≡ true
    → f.cfg.quiet_hours_start < day
    → f.cfg.quiet_hours_end < day
    → now_local < day
    → (is_in_quiet_hours f now_local ≡ true) ↔ (
        (now_local + (day - f.cfg.quiet_hours_start)) % day
        < (f.cfg.quiet_hours_end + (day - f.cfg.quiet_hours_start)) % day)
unfolding is_in_quiet_hours
is_in_quiet_hours_lem f now_local e s t n = ground arith

-- A critical notification is refused by the rate limit alone: where critical ones bypass that, it
-- is sent in every mode and at every time, and is not counted.
should_notify-critical :
    (f : NotificationFilter) (now_local now : ℕ)
    → (f.cfg.rate_limit_bypass_critical ≡ true
        → should_notify f critical now_local now ≡ (f, true, none))
      × (f.cfg.rate_limit_bypass_critical ≡ false
          → should_notify f critical now_local now ≡ check_rate_limit f now)
unfolding should_notify is_in_quiet_hours
should_notify-critical f now_local now = ground arith

-- At one moment, what a notification of some priority may do one of a higher priority may too: if
-- the first is sent, so is the second; and when a summary may be sent, every notification goes to
-- the rate limit or past it.
should_notify_mono :
    (f : NotificationFilter) (p q : NotificationPriority) (now_local now : ℕ)
    → rank p ≤ rank q
    → ((should_notify f p now_local now).1 ≡ true → (should_notify f q now_local now).1 ≡ true)
      × ((should_send_summary f now_local).0 ≡ true
          → (should_notify f p now_local now ≡ check_rate_limit f now)
            ⊎ (should_notify f p now_local now ≡ (f, true, none)))
unfolding should_notify should_send_summary is_in_quiet_hours check_rate_limit
should_notify_mono f p q now_local now h = ground arith
