-- ===== src/Idempotency/Duplicates.antt =====
-- What services/execution_service_rust/src/idempotency.rs answers to a key that comes again.
use arbees.Prelude.{
  ℕ, ◌+◌, ◌≤◌, ◌<◌, ◌≡◌, ◌↔◌, String, true, false, some, List, [], ◌∷◌, length, All, arith,
}
use text.Mathlib.TextEquality.{eq_iff}
use arbees.Prelude.Dict.{lookup, lookup-insert, length-insert}
use arbees.Idempotency.{
  max_entries, entry_ttl, Entry, IdempotencyTracker, new_key, duplicate, cleanup_expired, make_room,
  check_and_record, contains, Op, check, clean, time_of, apply, run,
}
use arbees.Idempotency.Capacity.{length-cleanup_expired}

-- A call answers that the key is new exactly when the tracker did not contain it, and the tracker
-- contains it afterwards, room or no room.
check_and_record-contains :
    (d : IdempotencyTracker) (k r : String) (now : ℕ)
    → (((check_and_record d k r now).1 ≡ new_key) ↔ (contains d k now ≡ false))
      × (contains ((check_and_record d k r now).0) k now ≡ true)
unfolding check_and_record contains
check_and_record-contains d k r now =
    let e : Entry = record { request_id = r; timestamp = now } in
    ground (arith, lookup-insert k k e (make_room d now), eq_iff k k)

lookup-cleanup_expired :
    (d : IdempotencyTracker) (k : String) (e : Entry) (now : ℕ)
    → lookup k d ≡ some e
    → now < e.timestamp + entry_ttl
    → lookup k (cleanup_expired d now) ≡ some e
unfolding lookup cleanup_expired
lookup-cleanup_expired [] k e now h l = ground arith
lookup-cleanup_expired (entry ∷ d) k e now h l = ground (arith, lookup-cleanup_expired d k e now)

-- While the entry of a key is live and there is room, a call leaves it there.
apply-lookup :
    (op : Op) (d : IdempotencyTracker) (k : String) (e : Entry)
    → lookup k d ≡ some e
    → time_of op < e.timestamp + entry_ttl
    → length d < max_entries
    → (lookup k (apply op d) ≡ some e) × (length (apply op d) ≤ length d + 1)
unfolding apply check_and_record make_room time_of
apply-lookup (check j r now) d k e h l room =
    let fresh : Entry = record { request_id = r; timestamp = now } in
    ground (arith, lookup-insert j k fresh d, length-insert j fresh d, eq_iff j k)
apply-lookup (clean now) d k e h l room =
    (lookup-cleanup_expired d k e now h l, omega (arith, length-cleanup_expired d now))

abbrev pub Before : ℕ → List Op → Type 0
Before end ops = All (λ op. time_of op < end) ops

run-lookup :
    (ops : List Op) (d : IdempotencyTracker) (k : String) (e : Entry)
    → lookup k d ≡ some e
    → Before (e.timestamp + entry_ttl) ops
    → length d + length ops ≤ max_entries
    → lookup k (run ops d) ≡ some e
unfolding run
run-lookup [] d k e h l room = h
run-lookup (op ∷ ops) d k e h (l, ls) room =
    let (found, more) = apply-lookup op d k e h l (omega arith) in
    run-lookup ops (apply op d) k e found ls (omega arith)

recorded :
    (d : IdempotencyTracker) (k r : String) (now : ℕ)
    → (check_and_record d k r now).1 ≡ new_key
    → length d < max_entries
    → (lookup k ((check_and_record d k r now).0)
        ≡ some (record { request_id = r; timestamp = now }))
      × (length ((check_and_record d k r now).0) ≤ length d + 1)
unfolding check_and_record make_room
recorded d k r now h room =
    let e : Entry = record { request_id = r; timestamp = now } in
    ground (arith, lookup-insert k k e d, length-insert k e d, eq_iff k k)

-- Once a key has been recorded as new at `t` in a tracker of n entries, then after m calls and
-- cleanups before `t` + 300 s, if n + 1 + m is at most 10000 (so that nothing is evicted), the key
-- is answered as a duplicate of `t` at every time before `t` + 300 s, and the tracker stays.
pub check_and_record-again :
    (d : IdempotencyTracker) (k r r' : String) (t now : ℕ) (ops : List Op)
    → (check_and_record d k r t).1 ≡ new_key
    → length d + 1 + length ops ≤ max_entries
    → Before (t + entry_ttl) ops
    → now < t + entry_ttl
    → check_and_record (run ops ((check_and_record d k r t).0)) k r' now
      ≡ (run ops ((check_and_record d k r t).0), duplicate t)
check_and_record-again d k r r' t now ops h room before soon =
    let e : Entry = record { request_id = r; timestamp = t } in
    let (found, more) = recorded d k r t h (omega arith) in
    let last = run-lookup ops ((check_and_record d k r t).0) k e found before (omega arith) in
    unfold check_and_record in ground arith
