-- ===== src/NotificationFilter.antt =====
-- services/notification_service_rust/src/filters.rs: which notifications are sent, by mode, quiet
-- hours and rate. The configuration has the fields that the filter and the scheduler read; the
-- zone's clock, from the crate chrono_tz, is an argument, the time of day in nanoseconds.
pub mod Rate
pub mod QuietHours
mod Tests
use arbees.Prelude.{
  ℕ, ◌+◌, ◌-◌, String, Bool, true, false, not, ◌&&◌, ◌||◌, Option, none, some, List, [], ◌∷◌, ◌++◌,
  ltb, leb, if◌then◌else◌, length, drop_while,
}

-- services/notification_service_rust/src/config.rs.
pub data NotificationMode : Type 0 where
  smart minimal verbose silent : NotificationMode

abbrev pub is_smart : NotificationMode → Bool
is_smart smart = true
is_smart _ = false

abbrev pub is_minimal : NotificationMode → Bool
is_minimal minimal = true
is_minimal _ = false

abbrev pub is_verbose : NotificationMode → Bool
is_verbose verbose = true
is_verbose _ = false

abbrev pub is_silent : NotificationMode → Bool
is_silent silent = true
is_silent _ = false

-- rust_core/src/models/mod.rs.
pub data NotificationPriority : Type 0 where
  info warning error critical : NotificationPriority

abbrev pub rank : NotificationPriority → ℕ
rank info = 0
rank warning = 1
rank error = 2
rank critical = 3

abbrev pub is_critical : NotificationPriority → Bool
is_critical critical = true
is_critical _ = false

pub record Config : Type 0 where
  pub quiet_hours_enabled : Bool
  pub quiet_hours_start : ℕ
  pub quiet_hours_end : ℕ
  pub quiet_hours_min_priority : NotificationPriority
  pub rate_limit_max_per_minute : ℕ
  pub rate_limit_window : ℕ
  pub rate_limit_bypass_critical : Bool
  pub notification_mode : NotificationMode
  pub summary_interval_active_mins : ℕ
  pub summary_interval_games_mins : ℕ
  pub summary_interval_idle_mins : ℕ
  pub trade_burst_window_mins : ℕ

-- The instants of the notifications sent, in nanoseconds of a clock that never goes back.
pub record NotificationFilter : Type 0 where
  pub cfg : Config
  pub sent_timestamps : List ℕ

pub new : Config → NotificationFilter
new cfg = record { cfg = cfg; sent_timestamps = [] }

-- The hours of a configuration at a time of day.
abbrev pub in_hours : ℕ → ℕ → ℕ → Bool
in_hours start end now_local =
    if ltb end start
    then leb start now_local || ltb now_local end
    else leb start now_local && ltb now_local end

pub is_in_quiet_hours : NotificationFilter → ℕ → Bool
is_in_quiet_hours f now_local =
    if not f.cfg.quiet_hours_enabled
    then false
    else in_hours f.cfg.quiet_hours_start f.cfg.quiet_hours_end now_local

-- `duration_since` of a later instant is 0, as `-` is.
pub check_rate_limit : NotificationFilter → ℕ → NotificationFilter × Bool × Option String
check_rate_limit f now =
    let kept = drop_while (λ sent. ltb f.cfg.rate_limit_window (now - sent)) f.sent_timestamps in
    if leb f.cfg.rate_limit_max_per_minute (length kept)
    then (record f { sent_timestamps = kept }, false, some "rate_limited")
    else (record f { sent_timestamps = kept ++ (now ∷ []) }, true, none)

-- The text that `format!` makes with the name of the least priority.
abbrev pub quiet_reason : NotificationPriority → String
quiet_reason info = "quiet_hours(priority<Info)"
quiet_reason warning = "quiet_hours(priority<Warning)"
quiet_reason error = "quiet_hours(priority<Error)"
quiet_reason critical = "quiet_hours(priority<Critical)"

-- At an instant `now`, which is the time of day `now_local` where the quiet hours are kept.
pub should_notify :
    NotificationFilter → NotificationPriority → ℕ → ℕ → NotificationFilter × Bool × Option String
should_notify f priority now_local now =
    if is_silent f.cfg.notification_mode && not (is_critical priority)
    then (f, false, some "silent_mode")
    else if f.cfg.quiet_hours_enabled
        && is_in_quiet_hours f now_local
        && ltb (rank priority) (rank f.cfg.quiet_hours_min_priority)
    then (f, false, some (quiet_reason f.cfg.quiet_hours_min_priority))
    else if f.cfg.rate_limit_bypass_critical && is_critical priority
    then (f, true, none)
    else check_rate_limit f now

pub should_send_summary : NotificationFilter → ℕ → Bool × Option String
should_send_summary f now_local =
    if is_silent f.cfg.notification_mode
    then (false, some "silent_mode")
    else if f.cfg.quiet_hours_enabled && is_in_quiet_hours f now_local
    then (false, some "quiet_hours")
    else (true, none)

-- A notification that is asked for: its priority, the time of day and the instant.
pub record Request : Type 0 where
  pub priority : NotificationPriority
  pub now_local : ℕ
  pub now : ℕ

abbrev pub log_sent : Bool → Request → List Request
log_sent true r = r ∷ []
log_sent false r = []

-- Requests in turn, with those that are sent.
pub run : NotificationFilter → List Request → NotificationFilter × List Request
run f [] = (f, [])
run f (r ∷ rs) =
    let (f', ok, _) = should_notify f r.priority r.now_local r.now in
    let (end, sent) = run f' rs in (end, log_sent ok r ++ sent)
