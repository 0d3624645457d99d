-- ===== src/AssignmentCircuit.antt =====
-- services/orchestrator_rust/src/state.rs: `AssignmentCircuitBreaker`, which stops the assignment
-- of games to a shard that loses them. `DateTime<Utc>` is a number of nanoseconds since 1970, and
-- may go backwards, so a difference of two is an integer.
pub mod Recovery
mod Tests
use arbees.Prelude.{ℕ, zero, suc, ◌+◌, ◌-◌, ◌/◌, ◌^◌, Bool, true, false, leb, if◌then◌else◌}
use arbees.Prelude.Int.{ℤ, pos, negsuc, sub_ℕ}
use arbees.Prelude.Word.{u32, u64}

pub data CircuitState : Type 0 where
  closed half_open open_ : CircuitState

-- `half_open_timeout` is a number of whole seconds.
pub record AssignmentCircuitConfig : Type 0 where
  pub failure_threshold : ℕ
  pub success_threshold : ℕ
  pub half_open_timeout : ℕ

abbrev pub default_config : AssignmentCircuitConfig
default_config = record { failure_threshold = 3; success_threshold = 2; half_open_timeout = 30 }

pub record AssignmentCircuitBreaker : Type 0 where
  pub state : CircuitState
  pub failure_count : ℕ  -- u32
  pub success_count : ℕ  -- u32
  pub last_state_change : ℕ
  pub config : AssignmentCircuitConfig

unfoldable pub new : AssignmentCircuitConfig → ℕ → AssignmentCircuitBreaker
new c now = record {
  state = closed;
  failure_count = 0;
  success_count = 0;
  last_state_change = now;
  config = c;
}

-- `signed_duration_since(..).num_seconds() as u64`: whole seconds towards 0, and a negative number
-- of them as a large one.
abbrev pub seconds_u64 : ℤ → ℕ
seconds_u64 (pos n) = u64 (n / 1_000_000_000)
seconds_u64 (negsuc n) = u64 (2 ^ 64 - (n + 1) / 1_000_000_000)

can_assign_in : CircuitState → AssignmentCircuitBreaker → ℕ → AssignmentCircuitBreaker × Bool
can_assign_in closed b now = (b, true)
can_assign_in open_ b now =
    if leb b.config.half_open_timeout (seconds_u64 (sub_ℕ now b.last_state_change))
    then (
      record b { state = half_open; success_count = 0; failure_count = 0; last_state_change = now },
      true,
    )
    else (b, false)
can_assign_in half_open b now = (b, true)

pub can_assign : AssignmentCircuitBreaker → ℕ → AssignmentCircuitBreaker × Bool
unfolding can_assign_in
can_assign b now = can_assign_in b.state b now

success_in : CircuitState → AssignmentCircuitBreaker → ℕ → AssignmentCircuitBreaker
success_in half_open b now =
    let counted = record b { success_count = u32 (b.success_count + 1) } in
    if leb b.config.success_threshold counted.success_count
    then record counted { state = closed; last_state_change = now }
    else counted
success_in _ b now = record b { state = closed }

pub record_assignment_success : AssignmentCircuitBreaker → ℕ → AssignmentCircuitBreaker
unfolding success_in
record_assignment_success b now = success_in b.state (record b { failure_count = 0 }) now

failure_in : CircuitState → AssignmentCircuitBreaker → ℕ → AssignmentCircuitBreaker
failure_in closed b now =
    if leb b.config.failure_threshold b.failure_count
    then record b { state = open_; last_state_change = now }
    else b
failure_in half_open b now = record b { state = open_; last_state_change = now }
failure_in open_ b now = b

unfoldable pub record_assignment_failure : AssignmentCircuitBreaker → ℕ → AssignmentCircuitBreaker
unfolding failure_in
record_assignment_failure b now =
    failure_in b.state (record b { failure_count = u32 (b.failure_count + 1) }) now

-- `n` failures or successes in a row, at one time.
pub record_failures : ℕ → AssignmentCircuitBreaker → ℕ → AssignmentCircuitBreaker
record_failures zero b now = b
record_failures (suc n) b now = record_assignment_failure (record_failures n b now) now

pub record_successes : ℕ → AssignmentCircuitBreaker → ℕ → AssignmentCircuitBreaker
record_successes zero b now = b
record_successes (suc n) b now = record_assignment_success (record_successes n b now) now
