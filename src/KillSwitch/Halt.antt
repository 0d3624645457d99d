-- ===== src/KillSwitch/Halt.antt =====
-- Who may end the halt of services/execution_service_rust/src/kill_switch.rs, and what it tells.
use arbees.Prelude.{
  ◌≡◌, ◌↔◌, ◌⊎◌, String, Bool, true, false, none, some, List, [], ◌∷◌, All, arith, refl,
}
use arbees.KillSwitch.{
  KillSwitch, is_enabled, enable, disable, is_resume, on_command, Op, ask, turn_on, turn_off,
  command, apply, run,
}

-- A method call that does not ask to resume.
abbrev pub IsNoResume : (String → String) → Op → Type 0
IsNoResume to_uppercase (ask file_exists) = Unit
IsNoResume to_uppercase (turn_on reason) = Unit
IsNoResume to_uppercase turn_off = ⊥
IsNoResume to_uppercase (command payload) = is_resume (to_uppercase payload) ≡ false

pub apply-enabled :
    (to_uppercase : String → String) (op : Op) (k : KillSwitch)
    → k.enabled ≡ true
    → IsNoResume to_uppercase op
    → (apply to_uppercase op k).enabled ≡ true
unfolding apply is_enabled enable disable on_command
apply-enabled u (ask file_exists) k h kind = ground arith
apply-enabled u (turn_on reason) k h kind = refl
apply-enabled u turn_off k h kind = absurd kind
apply-enabled u (command payload) k h kind = ground arith

run-stays_enabled :
    (to_uppercase : String → String) (ops : List Op) (k : KillSwitch)
    → k.enabled ≡ true
    → All (IsNoResume to_uppercase) ops
    → (run to_uppercase ops k).enabled ≡ true
unfolding run
run-stays_enabled u [] k h _ = h
run-stays_enabled u (op ∷ ops) k h (kind, kinds) =
    run-stays_enabled u ops (apply u op k) (apply-enabled u op k h kind) kinds

-- A halt lasts: once a request has been refused, by the switch or by the file, requests are
-- refused after any calls and commands that do not ask to resume, with the file or without it.
pub run-is_enabled :
    (to_uppercase : String → String) (ops : List Op) (k : KillSwitch) (file_then file_now : Bool)
    → (is_enabled k file_then).1 ≡ true
    → All (IsNoResume to_uppercase) ops
    → (is_enabled (run to_uppercase ops ((is_enabled k file_then).0)) file_now).1 ≡ true
run-is_enabled u ops k file_then file_now h kinds =
    let refused : ((is_enabled k file_then).0).enabled ≡ true = unfold is_enabled in ground arith in
    let still = run-stays_enabled u ops ((is_enabled k file_then).0) refused kinds in
    unfold is_enabled in ground arith

abbrev pub status_name : Bool → String
status_name true = "enabled"
status_name false = "disabled"

-- A command publishes a status exactly when it changes the switch, and then the new one; and the
-- same command again changes and publishes nothing.
on_command-status :
    (to_uppercase : String → String) (k : KillSwitch) (payload : String)
    → let (k', status) = on_command to_uppercase k payload in
      ((status ≡ none) ↔ (k' ≡ k))
      × ((status ≡ none) ⊎ (status ≡ some (status_name k'.enabled)))
      × (on_command to_uppercase k' payload ≡ (k', none))
unfolding on_command
on_command-status u k payload = ground arith
