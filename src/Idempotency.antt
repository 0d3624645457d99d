-- ===== src/Idempotency.antt =====
-- services/execution_service_rust/src/idempotency.rs: the keys of the executions asked for, each
-- kept for five minutes. Times are nanoseconds since 1970, which no reading precedes. The map is
-- in the order of insertion, by which the eviction orders entries of the same time.
pub mod Capacity
pub mod Duplicates
mod Tests
use arbees.Prelude.{
  ℕ, zero, suc, ◌+◌, ◌-◌, ◌/◌, String, Bool, true, false, Option, none, some, List, [], ◌∷◌, ltb,
  leb, if◌then◌else◌, length, filter, map,
}
use arbees.Prelude.Dict.{Dict, lookup, insert, remove}

abbrev pub max_entries : ℕ
max_entries = 10_000

-- 300 seconds.
abbrev pub entry_ttl : ℕ
entry_ttl = 300_000_000_000

pub data IdempotencyResult : Type 0 where
  new_key : IdempotencyResult
  duplicate : (original_timestamp : ℕ) → IdempotencyResult

pub record Entry : Type 0 where
  pub request_id : String
  pub timestamp : ℕ

abbrev pub IdempotencyTracker : Type 0
IdempotencyTracker = Dict Entry

abbrev pub is_live : ℕ → Entry → Bool
is_live now e = ltb (now - e.timestamp) entry_ttl

-- `retain` from the cutoff on.
pub cleanup_expired : IdempotencyTracker → ℕ → IdempotencyTracker
cleanup_expired entries now = filter (λ e. leb (now - entry_ttl) (e.1.timestamp)) entries

-- `sort_by_key`, which is stable.
pub insert_by_time : String × ℕ → List (String × ℕ) → List (String × ℕ)
insert_by_time e [] = e ∷ []
insert_by_time e (d ∷ ds) = if leb (e.1) (d.1) then e ∷ d ∷ ds else d ∷ insert_by_time e ds

pub sort_by_time : List (String × ℕ) → List (String × ℕ)
sort_by_time [] = []
sort_by_time (e ∷ es) = insert_by_time e (sort_by_time es)

-- Takes away the keys of the first entries of a list, as many as are asked for.
pub remove_first : ℕ → List (String × ℕ) → IdempotencyTracker → IdempotencyTracker
remove_first zero es entries = entries
remove_first (suc n) [] entries = entries
remove_first (suc n) (e ∷ es) entries = remove_first n es (remove (e.0) entries)

abbrev pub key_times : IdempotencyTracker → List (String × ℕ)
key_times entries = map (λ e. (e.0, e.1.timestamp)) entries

pub evict_oldest : IdempotencyTracker → IdempotencyTracker
evict_oldest entries =
    remove_first (length (key_times entries) / 10) (sort_by_time (key_times entries)) entries

abbrev pub live_time : ℕ → Option Entry → Option ℕ
live_time now none = none
live_time now (some e) = if is_live now e then some e.timestamp else none

pub make_room : IdempotencyTracker → ℕ → IdempotencyTracker
make_room entries now =
    if leb max_entries (length entries)
    then (let cleaned = cleanup_expired entries now in
        if leb max_entries (length cleaned) then evict_oldest cleaned else cleaned)
    else entries

unfoldable pub check_and_record :
    IdempotencyTracker → String → String → ℕ → IdempotencyTracker × IdempotencyResult
check_and_record entries idempotency_key request_id now =
    elim (live_time now (lookup idempotency_key entries)) [
      | some time ↦ (entries, duplicate time)
      | none ↦ (
        insert idempotency_key (record { request_id = request_id; timestamp = now })
            (make_room entries now),
        new_key,
      )
    ]

pub contains : IdempotencyTracker → String → ℕ → Bool
contains entries idempotency_key now = elim (lookup idempotency_key entries) [
  | none ↦ false
  | some e ↦ is_live now e
]

-- The calls on a tracker: those of the requests, and those of the background task.
pub data Op : Type 0 where
  check : (idempotency_key request_id : String) (now : ℕ) → Op
  clean : (now : ℕ) → Op

unfoldable pub time_of : Op → ℕ
time_of (check k r now) = now
time_of (clean now) = now

unfoldable pub apply : Op → IdempotencyTracker → IdempotencyTracker
apply (check k r now) entries = (check_and_record entries k r now).0
apply (clean now) entries = cleanup_expired entries now

unfoldable pub run : List Op → IdempotencyTracker → IdempotencyTracker
run [] entries = entries
run (op ∷ ops) entries = run ops (apply op entries)
