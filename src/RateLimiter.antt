-- ===== src/RateLimiter.antt =====
-- services/execution_service_rust/src/rate_limiter.rs: the sliding window limiter of orders.
-- `DateTime<Utc>` is a number of nanoseconds since 1970, so `now - 1 minute` may stop at 0: no
-- time stands before that. Each method is one step, as its mutex makes it.
pub mod Reference
pub mod Windows
mod Tests
use arbees.Prelude.{
  ℕ, ◌+◌, ◌-◌, ◌/◌, min, max, String, Bool, true, false, Option, none, some, List, [], ◌∷◌, ◌++◌,
  ltb, leb, if◌then◌else◌, length, filter, drop_while,
}

abbrev pub second : ℕ
second = 1_000_000_000

abbrev pub one_minute : ℕ
one_minute = 60_000_000_000

abbrev pub one_hour : ℕ
one_hour = 3_600_000_000_000

pub record RateLimitExceeded : Type 0 where
  pub limit_type : String
  pub current_count : ℕ
  pub limit : ℕ
  pub retry_after_secs : ℕ

pub record RateLimiter : Type 0 where
  pub order_timestamps : List ℕ
  pub max_per_minute : ℕ
  pub max_per_hour : ℕ

unfoldable pub new : ℕ → ℕ → RateLimiter
new max_per_minute max_per_hour = record {
  order_timestamps = [];
  max_per_minute = max_per_minute;
  max_per_hour = max_per_hour;
}

-- `iter().min().unwrap_or(now)`.
pub minimum_or : ℕ → List ℕ → ℕ
minimum_or now [] = now
minimum_or now (t ∷ []) = t
minimum_or now (t ∷ ts) = min t (minimum_or now ts)

abbrev pub front_or : ℕ → List ℕ → ℕ
front_or now [] = now
front_or now (t ∷ ts) = t

-- `(oldest + window - now).num_seconds().max(1)`: a difference below 0 gives 1 as well.
abbrev pub retry_after : ℕ → ℕ → ℕ → ℕ
retry_after oldest window now = max ((oldest + window - now) / second) 1

-- `none` is `Ok(())`.
unfoldable pub check_and_record : RateLimiter → ℕ → RateLimiter × Option RateLimitExceeded
check_and_record r now =
    let timestamps = drop_while (λ ts. ltb ts (now - one_hour)) r.order_timestamps in
    let cleaned = record r { order_timestamps = timestamps } in
    let recent = filter (λ ts. leb (now - one_minute) ts) timestamps in
    if leb r.max_per_minute (length recent)
    then (
      cleaned,
      some (record {
        limit_type = "minute";
        current_count = length recent;
        limit = r.max_per_minute;
        retry_after_secs = retry_after (minimum_or now recent) one_minute now;
      }),
    )
    else if leb r.max_per_hour (length timestamps)
    then (
      cleaned,
      some (record {
        limit_type = "hour";
        current_count = length timestamps;
        limit = r.max_per_hour;
        retry_after_secs = retry_after (front_or now timestamps) one_hour now;
      }),
    )
    else (record r { order_timestamps = timestamps ++ (now ∷ []) }, none)

-- `(minute_count, hour_count)`; the second counts entries that the next cleanup would drop.
pub get_counts : RateLimiter → ℕ → ℕ × ℕ
get_counts r now = (
  length (filter (λ ts. leb (now - one_minute) ts) r.order_timestamps),
  length r.order_timestamps,
)

abbrev pub log_order : Option RateLimitExceeded → ℕ → List ℕ
log_order none now = now ∷ []
log_order (some e) now = []

-- The calls at the times of a list, with the times of the orders that were let through.
unfoldable pub run : RateLimiter → List ℕ → RateLimiter × List ℕ
run r [] = (r, [])
run r (now ∷ times) =
    let (r', answer) = check_and_record r now in
    let (end, orders) = run r' times in (end, log_order answer now ++ orders)
