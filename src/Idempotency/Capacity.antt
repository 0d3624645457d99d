-- ===== src/Idempotency/Capacity.antt =====
-- The bound on the entries of services/execution_service_rust/src/idempotency.rs.
use arbees.Prelude.{
  ℕ, zero, suc, ◌-◌, ◌/◌, ◌≤◌, ◌<◌, ◌≡◌, ◌≢◌, refl, String, none, List, [], ◌∷◌, length,
  length-filter, All, All-map, leb, arith,
}
use text.Mathlib.TextEquality.{eq_iff}
use arbees.Prelude.Dict.{lookup, remove, length-insert}
use arbees.Idempotency.{
  max_entries, entry_ttl, Entry, IdempotencyTracker, cleanup_expired, insert_by_time, sort_by_time,
  remove_first, key_times, evict_oldest, make_room, check_and_record, Op, check, clean, apply, run,
}

abbrev Has : IdempotencyTracker → String × ℕ → Type 0
Has entries e = lookup (e.0) entries ≢ none

All-insert_by_time :
    (entries : IdempotencyTracker) (e : String × ℕ) (ds : List (String × ℕ))
    → Has entries e
    → All (Has entries) ds
    → All (Has entries) (insert_by_time e ds)
unfolding insert_by_time
All-insert_by_time entries e [] h _ = (h, tt)
All-insert_by_time entries e (d ∷ ds) h (p, ps) =
    let later = All-insert_by_time entries e ds h ps in ground arith

All-sort_by_time :
    (entries : IdempotencyTracker) (ds : List (String × ℕ))
    → All (Has entries) ds
    → All (Has entries) (sort_by_time ds)
unfolding sort_by_time
All-sort_by_time entries [] _ = tt
All-sort_by_time entries (d ∷ ds) (p, ps) =
    All-insert_by_time entries d (sort_by_time ds) p (All-sort_by_time entries ds ps)

length-insert_by_time :
    (e : String × ℕ) (es : List (String × ℕ)) → length (insert_by_time e es) ≡ suc (length es)
unfolding insert_by_time
length-insert_by_time e [] = refl
length-insert_by_time e (d ∷ es) = ground (arith, length-insert_by_time e es)

length-sort_by_time : (ds : List (String × ℕ)) → length (sort_by_time ds) ≡ length ds
unfolding sort_by_time
length-sort_by_time [] = refl
length-sort_by_time (d ∷ ds) =
    omega (arith, length-insert_by_time d (sort_by_time ds), length-sort_by_time ds)

length-remove : (key : String) (d : IdempotencyTracker) → length (remove key d) ≤ length d
unfolding remove
length-remove key [] = omega arith
length-remove key (e ∷ d) = ground (arith, length-remove key d)

length-remove_found :
    (key : String) (d : IdempotencyTracker) → lookup key d ≢ none → length (remove key d) < length d
unfolding remove lookup
length-remove_found key [] h = absurd (h refl)
length-remove_found key (e ∷ d) h = ground (arith, length-remove_found key d, length-remove key d)

length-remove_first :
    (n : ℕ) (es : List (String × ℕ)) (d : IdempotencyTracker)
    → length (remove_first n es d) ≤ length d
unfolding remove_first
length-remove_first zero es d = omega arith
length-remove_first (suc n) [] d = omega arith
length-remove_first (suc n) (e ∷ es) d =
    omega (arith, length-remove_first n es (remove (e.0) d), length-remove (e.0) d)

remove_first-lt :
    (n : ℕ) (es : List (String × ℕ)) (d : IdempotencyTracker)
    → 0 < n
    → 0 < length es
    → All (Has d) es
    → length (remove_first n es d) < length d
unfolding remove_first
remove_first-lt zero es d p q a = absurd (omega arith)
remove_first-lt (suc n) [] d p q a = absurd (omega arith)
remove_first-lt (suc n) (e ∷ es) d p q (h, _) =
    omega (arith, length-remove_first n es (remove (e.0) d), length-remove_found (e.0) d h)

length-key_times : (d : IdempotencyTracker) → length (key_times d) ≡ length d
length-key_times [] = refl
length-key_times (e ∷ d) = omega (arith, length-key_times d)

Has-cons : (e : String × Entry) (d : IdempotencyTracker) (k : String × ℕ) → Has d k → Has (e ∷ d) k
unfolding lookup
Has-cons e d k h = ground arith

key_times-Has : (d : IdempotencyTracker) → All (Has d) (key_times d)
unfolding lookup
key_times-Has [] = tt
key_times-Has (e ∷ d) =
    let here : lookup (e.0) (e ∷ d) ≢ none = ground (arith, eq_iff (e.0) (e.0)) in
    (here, All-map (Has d) (Has (e ∷ d)) (λ k h. Has-cons e d k h) (key_times d) (key_times-Has d))

evict_oldest-lt : (d : IdempotencyTracker) → 10 ≤ length d → length (evict_oldest d) < length d
unfolding evict_oldest
evict_oldest-lt d h =
    let same = length-key_times d in
    let sorted = length-sort_by_time (key_times d) in
    remove_first-lt (length (key_times d) / 10) (sort_by_time (key_times d)) d (omega arith)
      (omega arith) (All-sort_by_time d (key_times d) (key_times-Has d))

pub length-cleanup_expired :
    (d : IdempotencyTracker) (now : ℕ) → length (cleanup_expired d now) ≤ length d
unfolding cleanup_expired
length-cleanup_expired d now = length-filter (λ e. leb (now - entry_ttl) (e.1.timestamp)) d

length-make_room :
    (d : IdempotencyTracker) (now : ℕ)
    → length d ≤ max_entries
    → length (make_room d now) < max_entries
unfolding make_room
length-make_room d now h =
    let cleaned = cleanup_expired d now in
    ground (arith, length-cleanup_expired d now, evict_oldest-lt cleaned)

apply-max_entries :
    (op : Op) (d : IdempotencyTracker) → length d ≤ max_entries → length (apply op d) ≤ max_entries
unfolding apply check_and_record
apply-max_entries (check k r now) d h =
    let e : Entry = record { request_id = r; timestamp = now } in
    ground (arith, length-make_room d now h, length-insert k e (make_room d now))
apply-max_entries (clean now) d h = omega (arith, length-cleanup_expired d now)

-- Whatever requests come, and whenever the background task runs, a tracker that starts with at
-- most 10000 entries never holds more: where no entry has expired, the eviction makes room.
pub run-max_entries :
    (ops : List Op) (d : IdempotencyTracker)
    → length d ≤ max_entries
    → length (run ops d) ≤ max_entries
unfolding run
run-max_entries [] d h = h
run-max_entries (op ∷ ops) d h = run-max_entries ops (apply op d) (apply-max_entries op d h)
