-- ===== src/KillSwitch/Tests.antt =====
-- Runs of the switch of services/execution_service_rust/src/kill_switch.rs.
use arbees.Prelude.{◌≡◌, refl, String, false, true, List, [], ◌∷◌}
use arbees.KillSwitch.{KillSwitch, is_enabled, Op, ask, turn_on, command, manual, run}
use arbees.KillSwitch.Halt.{run-is_enabled}

-- Commands in upper case already.
abbrev same_text : String → String
same_text s = s

abbrev off : KillSwitch
off = record { enabled = false; has_events = false }

abbrev quiet_calls : List Op
quiet_calls = ask false ∷ turn_on manual ∷ command "STATUS" ∷ []

seen : (is_enabled off true).1 ≡ true
unfolding is_enabled
seen = refl

-- The file was seen once and is gone.
run-is_enabled_example :
    (is_enabled (run same_text quiet_calls ((is_enabled off true).0)) false).1 ≡ true
run-is_enabled_example =
    run-is_enabled same_text quiet_calls off true false seen (tt, (tt, (refl, tt)))
