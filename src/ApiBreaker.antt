-- ===== src/ApiBreaker.antt =====
-- rust_core/src/circuit_breaker.rs: `ApiCircuitBreaker`, which guards calls to an external
-- service. `Instant` and `Duration` are numbers of nanoseconds; each method is one step, as its
-- lock on the state makes it. The name of a breaker is only logged and is left out.
pub mod Transitions
pub mod Recovery
mod Tests
use arbees.Prelude.{
  ℕ, zero, suc, ◌+◌, ◌-◌, Bool, true, false, Option, none, some, List, [], ◌∷◌, leb, if◌then◌else◌,
}
use arbees.Prelude.Word.{u32}

pub data State : Type 0 where
  closed open_ half_open : State

pub record Config : Type 0 where
  pub failure_threshold : ℕ
  pub recovery_timeout : ℕ
  pub success_threshold : ℕ

abbrev pub default_config : Config
default_config = record {
  failure_threshold = 5;
  recovery_timeout = 30_000_000_000;
  success_threshold = 2;
}

pub record ApiCircuitBreaker : Type 0 where
  pub config : Config
  pub state : State
  pub failure_count : ℕ  -- u32
  pub success_count : ℕ  -- u32
  pub last_failure_time : Option ℕ

pub new : Config → ApiCircuitBreaker
new c = record {
  config = c;
  state = closed;
  failure_count = 0;
  success_count = 0;
  last_failure_time = none;
}

-- `last_failure_time.map(|t| t.elapsed() >= recovery_timeout).unwrap_or(true)`.
abbrev pub should_try : ApiCircuitBreaker → ℕ → Bool
should_try b now = elim b.last_failure_time [
  | none ↦ true
  | some t ↦ leb b.config.recovery_timeout (now - t)
]

available_in : State → ApiCircuitBreaker → ℕ → ApiCircuitBreaker × Bool
available_in closed b now = (b, true)
available_in open_ b now =
    if should_try b now
    then (record b { state = half_open; success_count = 0 }, true)
    else (b, false)
available_in half_open b now = (b, true)

pub is_available : ApiCircuitBreaker → ℕ → ApiCircuitBreaker × Bool
unfolding available_in
is_available b now = available_in b.state b now

success_in : State → ApiCircuitBreaker → ApiCircuitBreaker
success_in half_open b =
    let successes = u32 (b.success_count + 1) in
    let counted = record b { success_count = successes } in
    if leb b.config.success_threshold successes then record counted { state = closed } else counted
success_in _ b = record b { state = closed }

pub record_success : ApiCircuitBreaker → ApiCircuitBreaker
unfolding success_in
record_success b = success_in b.state (record b { failure_count = 0 })

failure_in : State → ApiCircuitBreaker → ApiCircuitBreaker
failure_in closed b =
    if leb b.config.failure_threshold b.failure_count then record b { state = open_ } else b
failure_in half_open b = record b { state = open_ }
failure_in open_ b = b

pub record_failure : ApiCircuitBreaker → ℕ → ApiCircuitBreaker
unfolding failure_in
record_failure b now =
    failure_in b.state
      (record b { failure_count = u32 (b.failure_count + 1); last_failure_time = some now })

pub reset : ApiCircuitBreaker → ApiCircuitBreaker
reset b = record b {
  state = closed;
  failure_count = 0;
  success_count = 0;
  last_failure_time = none;
}

-- The methods that change a breaker.
pub data Op : Type 0 where
  ask : (now : ℕ) → Op
  succeed : Op
  fail : (now : ℕ) → Op
  clear : Op

pub apply : Op → ApiCircuitBreaker → ApiCircuitBreaker
apply (ask now) b = (is_available b now).0
apply succeed b = record_success b
apply (fail now) b = record_failure b now
apply clear b = reset b

pub run : List Op → ApiCircuitBreaker → ApiCircuitBreaker
run [] b = b
run (op ∷ ops) b = run ops (apply op b)

pub record_successes : ℕ → ApiCircuitBreaker → ApiCircuitBreaker
record_successes zero b = b
record_successes (suc n) b = record_success (record_successes n b)

pub record_failures : ℕ → ApiCircuitBreaker → ℕ → ApiCircuitBreaker
record_failures zero b now = b
record_failures (suc n) b now = record_failure (record_failures n b now) now
