-- ===== src/Idempotency/Tests.antt =====
-- Runs of the tracker of services/execution_service_rust/src/idempotency.rs.
use arbees.Prelude.{◌+◌, ◌≤◌, ◌≡◌, refl, List, [], ◌∷◌, length, arith}
use arbees.Idempotency.{
  max_entries, entry_ttl, time_of, IdempotencyTracker, new_key, duplicate, check_and_record, Op,
  check, clean, apply, run, make_room, cleanup_expired,
}
use arbees.Prelude.Dict.{lookup, insert}
use arbees.Idempotency.Capacity.{run-max_entries}
use arbees.Idempotency.Duplicates.{Before, check_and_record-again}

abbrev none_yet : IdempotencyTracker
none_yet = []

-- Another key, the same key again, and a cleanup.
abbrev minute : List Op
minute = check "b" "r2" 1_000_000_000 ∷ check "a" "r3" 2_000_000_000 ∷ clean 60_000_000_000 ∷ []

minute_keys : length (run minute ((check_and_record none_yet "a" "r1" 5).0)) ≡ 2
unfolding run apply check_and_record make_room cleanup_expired lookup insert
minute_keys = refl

fresh : (check_and_record none_yet "a" "r1" 5).1 ≡ new_key
unfolding check_and_record lookup
fresh = refl

soon : Before (5 + entry_ttl) minute
unfolding time_of
soon = (omega arith, (omega arith, (omega arith, tt)))

check_and_record-again_example :
    check_and_record (run minute ((check_and_record none_yet "a" "r1" 5).0)) "a" "r4" 90_000_000_000
    ≡ (run minute ((check_and_record none_yet "a" "r1" 5).0), duplicate 5)
check_and_record-again_example =
    check_and_record-again none_yet "a" "r1" "r4" 5 90_000_000_000 minute fresh (omega arith) soon
      (omega arith)

run-max_entries_example : length (run minute none_yet) ≤ max_entries
run-max_entries_example = run-max_entries minute none_yet (omega arith)
