-- ===== src/CircuitBreaker.antt =====
-- rust_core/src/circuit_breaker.rs: the trading `CircuitBreaker` with its position limits, its
-- daily loss limit, its count of consecutive errors and its cooldown. A method returns the new
-- breaker, and a method that hangs what it leaves of it. `locked` says that a thread that hangs holds
-- the lock on the time of the trip for reading. `Instant` and `Duration` are numbers of nanoseconds, and `now` is what the clock says
-- at the call.
pub mod Limits
pub mod Halting
pub mod Traces
mod Tests
use arbees.Prelude.{
  ℕ, ◌+◌, ◌-◌, ◌/◌, ◌%◌, ◌^◌, String, Bool, true, false, not, Option, none, some, List, [], ◌∷◌,
  ltb, leb, if◌then◌else◌, length,
}
use arbees.Prelude.Int.{ℤ, pos, ltb_ℤ}
use arbees.Prelude.Word.{add_i64, neg_i64, abs_i64, u32, u64}
use arbees.Prelude.Dict.{Dict, lookup, insert}

pub data TripReason : Type 0 where
  manual_halt : TripReason
  max_position_per_market : (market_id : String) (current limit : ℤ) → TripReason
  max_total_position : (current limit : ℤ) → TripReason
  max_daily_loss : (current_cents limit_cents : ℤ) → TripReason
  consecutive_errors : (count limit : ℕ) → TripReason

pub record MarketPosition : Type 0 where
  pub kalshi_contracts : ℤ
  pub poly_contracts : ℤ

abbrev pub no_position : MarketPosition
no_position = record { kalshi_contracts = pos 0; poly_contracts = pos 0 }

-- `MarketPosition::total`.
pub total : MarketPosition → ℤ
total p = add_i64 (abs_i64 p.kalshi_contracts) (abs_i64 p.poly_contracts)

pub record Config : Type 0 where
  pub max_position_per_market : ℤ
  pub max_total_position : ℤ
  pub max_daily_loss_cents : ℤ
  pub max_consecutive_errors : ℕ
  pub cooldown_duration : ℕ
  pub enabled : Bool

abbrev pub default_config : Config
default_config = record {
  max_position_per_market = pos 50_000;
  max_total_position = pos 100_000;
  max_daily_loss_cents = pos 50_000;
  max_consecutive_errors = 5;
  cooldown_duration = 300_000_000_000;
  enabled = true;
}

-- `consecutive_errors` is an `AtomicI64` that is only reset, incremented and cut to 32 bits: its
-- bit pattern is kept.
pub record CircuitBreaker : Type 0 where
  pub config : Config
  pub halted : Bool
  pub consecutive_errors : ℕ
  pub daily_pnl_cents : ℤ
  pub positions : Dict MarketPosition
  pub tripped_at : Option ℕ
  pub trip_reason : Option TripReason
  pub locked : Bool

-- What a call answers, if it returns.
pub data Call {ℓ} (A : Type ℓ) : Type ℓ where
  returns : A → Call A
  hangs : Call A

pub new : Config → CircuitBreaker
new c = record {
  config = c;
  halted = false;
  consecutive_errors = 0;
  daily_pnl_cents = pos 0;
  positions = [];
  tripped_at = none;
  trip_reason = none;
  locked = false;
}

-- On a locked breaker the call hangs at the time of the trip.
pub trip : CircuitBreaker → ℕ → TripReason → CircuitBreaker
trip cb now reason =
    if cb.locked
    then record cb { halted = true }
    else record cb { halted = true; tripped_at = some now; trip_reason = some reason }

pub halt : CircuitBreaker → ℕ → CircuitBreaker
unfolding trip
halt cb now = trip cb now manual_halt

-- What `reset` stores before it takes the lock.
abbrev pub unhalted : CircuitBreaker → CircuitBreaker
unhalted cb = record cb { halted = false; consecutive_errors = 0 }

-- On a locked breaker the call hangs at the time of the trip.
pub reset : CircuitBreaker → CircuitBreaker
reset cb =
    if cb.locked
    then unhalted cb
    else record (unhalted cb) { tripped_at = none; trip_reason = none }

-- `tripped.elapsed() >= cooldown_duration`, with no trip time counting as no.
abbrev pub cooled_down : CircuitBreaker → ℕ → Bool
cooled_down cb now = elim cb.tripped_at [
  | none ↦ false
  | some t ↦ leb cb.config.cooldown_duration (now - t)
]

-- The `if let` holds the read lock on the time of the trip while it calls `reset`, which waits for
-- the write lock: after the cooldown the call hangs, with the lock held.
pub is_trading_allowed : CircuitBreaker → ℕ → CircuitBreaker × Call Bool
is_trading_allowed cb now =
    if not cb.config.enabled
    then (cb, returns true)
    else if not cb.halted
    then (cb, returns true)
    else if cb.locked
    then (cb, hangs)
    else if cooled_down cb now
    then (record (unhalted cb) { locked = true }, hangs)
    else (cb, returns false)

-- The total of one market, 0 where it has no entry.
pub market_total : Dict MarketPosition → String → ℤ
market_total positions market_id = elim (lookup market_id positions) [
  | none ↦ pos 0
  | some p ↦ total p
]

-- `positions.values().map(|p| p.total()).sum()`.
pub sum_totals : Dict MarketPosition → ℤ
sum_totals [] = pos 0
sum_totals ((k, p) ∷ m) = add_i64 (total p) (sum_totals m)

-- The limits that `can_execute` tests once trading is allowed; `none` is `Ok(())`.
pub check_limits : Config → Dict MarketPosition → String → ℤ → Option TripReason
check_limits c positions market_id contracts =
    let current_position = market_total positions market_id in
    let total_position = sum_totals positions in
    if ltb_ℤ c.max_position_per_market (add_i64 current_position (abs_i64 contracts))
    then some (max_position_per_market market_id current_position c.max_position_per_market)
    else if ltb_ℤ c.max_total_position (add_i64 total_position (abs_i64 contracts))
    then some (max_total_position total_position c.max_total_position)
    else none

abbrev pub reason_or_halt : Option TripReason → TripReason
reason_or_halt none = manual_halt
reason_or_halt (some r) = r

-- `none` is `Ok(())`.
pub can_execute : CircuitBreaker → ℕ → String → ℤ → CircuitBreaker × Call (Option TripReason)
can_execute cb now market_id contracts =
    let (cb', allowed) = is_trading_allowed cb now in
    if not cb.config.enabled then (cb, returns none) else elim allowed [
      | hangs ↦ (cb', hangs)
      | returns true ↦ (cb', returns (check_limits cb'.config cb'.positions market_id contracts))
      | returns false ↦ (cb', returns (some (reason_or_halt cb'.trip_reason)))
    ]

-- The entry of a market, or a new one, with the contracts added.
pub add_contracts : Dict MarketPosition → String → ℤ → ℤ → Dict MarketPosition
add_contracts positions market_id kalshi poly =
    let p : MarketPosition = elim (lookup market_id positions) [
      | none ↦ no_position
      | some old ↦ old
    ] in
    insert market_id
      (record {
        kalshi_contracts = add_i64 p.kalshi_contracts kalshi;
        poly_contracts = add_i64 p.poly_contracts poly;
      })
      positions

pub record_success : CircuitBreaker → String → ℤ → ℤ → ℤ → CircuitBreaker
record_success cb market_id kalshi poly pnl_cents = record cb {
  consecutive_errors = 0;
  positions = add_contracts cb.positions market_id kalshi poly;
  daily_pnl_cents = add_i64 cb.daily_pnl_cents pnl_cents;
}

pub record_error : CircuitBreaker → ℕ → CircuitBreaker
unfolding trip
record_error cb now =
    let errors = u64 (cb.consecutive_errors + 1) in
    let counted = record cb { consecutive_errors = errors } in
    if leb cb.config.max_consecutive_errors (u32 errors)
    then trip counted now (consecutive_errors (u32 errors) cb.config.max_consecutive_errors)
    else counted

pub record_pnl : CircuitBreaker → ℕ → ℤ → CircuitBreaker
unfolding trip
record_pnl cb now pnl_cents =
    let new_pnl = add_i64 cb.daily_pnl_cents pnl_cents in
    let counted = record cb { daily_pnl_cents = new_pnl } in
    if ltb_ℤ new_pnl (neg_i64 cb.config.max_daily_loss_cents)
    then trip counted now (max_daily_loss new_pnl cb.config.max_daily_loss_cents)
    else counted

pub reset_daily_pnl : CircuitBreaker → CircuitBreaker
reset_daily_pnl cb = record cb { daily_pnl_cents = pos 0 }

pub clear_positions : CircuitBreaker → CircuitBreaker
clear_positions cb = record cb { positions = [] }

pub record Status : Type 0 where
  pub enabled : Bool
  pub halted : Bool
  pub consecutive_errors : ℕ
  pub daily_pnl_cents : ℤ
  pub total_position : ℤ
  pub market_count : ℕ
  pub trip_reason : Option TripReason
  pub cooldown_remaining_secs : Option ℕ

-- The seconds left of the cooldown, rounded down.
abbrev remaining_secs : ℕ → ℕ → ℕ
remaining_secs cooldown elapsed =
    if ltb elapsed cooldown then (cooldown - elapsed) / 1_000_000_000 else 0

-- The reason is kept as a value; the code prints it. It reads the time of the trip, for which a
-- writer waits while the breaker is locked.
pub status : CircuitBreaker → ℕ → Call Status
status cb now =
    if cb.locked
    then hangs
    else returns (record {
      enabled = cb.config.enabled;
      halted = cb.halted;
      consecutive_errors = u32 cb.consecutive_errors;
      daily_pnl_cents = cb.daily_pnl_cents;
      total_position = sum_totals cb.positions;
      market_count = length cb.positions;
      trip_reason = cb.trip_reason;
      cooldown_remaining_secs = elim cb.tripped_at [
        | none ↦ none
        | some t ↦ some (remaining_secs cb.config.cooldown_duration (now - t))
      ];
    })

-- The methods that change the breaker, as operations with their arguments.
pub data Op : Type 0 where
  ask : (now : ℕ) → Op
  ask_execute : (now : ℕ) (market_id : String) (contracts : ℤ) → Op
  succeed : (market_id : String) (kalshi poly pnl_cents : ℤ) → Op
  fail : (now : ℕ) → Op
  pnl : (now : ℕ) (pnl_cents : ℤ) → Op
  trip_by : (now : ℕ) (reason : TripReason) → Op
  halt_now : (now : ℕ) → Op
  reset_now : Op
  new_day : Op
  clear : Op

pub apply : Op → CircuitBreaker → CircuitBreaker
apply (ask now) cb = (is_trading_allowed cb now).0
apply (ask_execute now m c) cb = (can_execute cb now m c).0
apply (succeed m k p x) cb = record_success cb m k p x
apply (fail now) cb = record_error cb now
apply (pnl now x) cb = record_pnl cb now x
apply (trip_by now r) cb = trip cb now r
apply (halt_now now) cb = halt cb now
apply reset_now cb = reset cb
apply new_day cb = reset_daily_pnl cb
apply clear cb = clear_positions cb

pub run : List Op → CircuitBreaker → CircuitBreaker
run [] cb = cb
run (op ∷ ops) cb = run ops (apply op cb)
