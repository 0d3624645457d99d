-- ===== src/KillSwitch.antt =====
-- services/execution_service_rust/src/kill_switch.rs: the switch that halts all execution. That
-- the file of the fallback exists is an argument, as the operating system's answer; the upper case
-- of a command, with the tables of Unicode, is a parameter; methods run one at a time. The
-- channel of events is left at whether there is one, with the event that is tried on it.
pub mod Halt
mod Tests
use text.Mathlib.Text.{◌==◌}
use arbees.Prelude.{
  String, Bool, true, false, not, ◌||◌, Option, none, some, List, [], ◌∷◌, if◌then◌else◌,
}

pub data KillSwitchReason : Type 0 where
  manual daily_loss_exceeded file_triggered : KillSwitchReason
  external : (reason : String) → KillSwitchReason

pub record KillSwitch : Type 0 where
  pub enabled : Bool
  pub has_events : Bool

pub new : KillSwitch
new = record { enabled = false; has_events = false }

pub with_events : KillSwitch
with_events = record { enabled = false; has_events = true }

unfoldable pub is_enabled : KillSwitch → Bool → KillSwitch × Bool
is_enabled k file_exists =
    if k.enabled
    then (k, true)
    else if file_exists
    then (record k { enabled = true }, true)
    else (k, false)

-- With the event that is sent, if any. The reason is only logged.
unfoldable pub enable : KillSwitch → KillSwitchReason → KillSwitch × Option Bool
enable k reason = (
  record k { enabled = true },
  if k.enabled then none else if k.has_events then some true else none,
)

pub disable : KillSwitch → KillSwitch × Option Bool
disable k = (
  record k { enabled = false },
  if k.enabled then if k.has_events then some false else none else none,
)

abbrev pub is_halt : String → Bool
is_halt word = word == "ENABLE" || word == "ON" || word == "HALT" || word == "STOP"

abbrev pub is_resume : String → Bool
is_resume word = word == "DISABLE" || word == "OFF" || word == "RESUME" || word == "START"

-- One message of the listener, with the status that it publishes, if any.
pub on_command : (String → String) → KillSwitch → String → KillSwitch × Option String
on_command to_uppercase k payload =
    let word = to_uppercase payload in
    if is_halt word
    then (record k { enabled = true }, if k.enabled then none else some "enabled")
    else if is_resume word
    then (record k { enabled = false }, if k.enabled then some "disabled" else none)
    else (k, none)

pub data Op : Type 0 where
  ask : (file_exists : Bool) → Op
  turn_on : (reason : KillSwitchReason) → Op
  turn_off : Op
  command : (payload : String) → Op

pub apply : (String → String) → Op → KillSwitch → KillSwitch
apply to_uppercase (ask file_exists) k = (is_enabled k file_exists).0
apply to_uppercase (turn_on reason) k = (enable k reason).0
apply to_uppercase turn_off k = (disable k).0
apply to_uppercase (command payload) k = (on_command to_uppercase k payload).0

pub run : (String → String) → List Op → KillSwitch → KillSwitch
run to_uppercase [] k = k
run to_uppercase (op ∷ ops) k = run to_uppercase ops (apply to_uppercase op k)
