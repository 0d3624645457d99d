-- ===== src/RateLimiter/Windows.antt =====
-- How many orders services/execution_service_rust/src/rate_limiter.rs lets through in any minute
-- and in any hour.
use arbees.Prelude.{
  ℕ, ◌≤◌, ◌<◌, ◌≡◌, refl, Bool, true, false, List, [], ◌∷◌, ◌++◌, leb, if◌then◌else◌, arith,
}
use arbees.Prelude.Count.{within, within-append, count_if, count_if-append}
use arbees.RateLimiter.{one_minute, one_hour, new, run}
use arbees.RateLimiter.Reference.{Ascending, admits, reference, run-refines_reference}

-- The orders of a log that reaches up to `t`, and its limits over every minute and hour.
record IsLimited (max_m max_h : ℕ) (log : List ℕ) (t : ℕ) : Type 0 where
  pub nothing_later : (c : ℕ) → t < c → count_if (leb c) log ≡ 0
  pub minutes : (start : ℕ) → within one_minute start log ≤ max_m
  pub hours : (start : ℕ) → within one_hour start log ≤ max_h

IsLimited-append :
    (max_m max_h t now : ℕ) (log : List ℕ)
    → IsLimited max_m max_h log t
    → t ≤ now
    → admits max_m max_h log now ≡ true
    → IsLimited max_m max_h (log ++ (now ∷ [])) now
unfolding count_if
IsLimited-append max_m max_h t now log v h ok = record {
  nothing_later = λ c k. ground (arith, count_if-append (leb c) log (now ∷ []), v.nothing_later c);
  minutes = λ start. within-append one_minute start now max_m log (v.minutes start) (ground arith);
  hours = λ start. within-append one_hour start now max_h log (v.hours start) (ground arith);
}

IsLimited-later :
    (max_m max_h t now : ℕ) (log : List ℕ)
    → IsLimited max_m max_h log t
    → t ≤ now
    → IsLimited max_m max_h log now
IsLimited-later max_m max_h t now log v h = record {
  nothing_later = λ c k. v.nothing_later c (omega arith);
  minutes = v.minutes;
  hours = v.hours;
}

IsLimited-if :
    (max_m max_h t now : ℕ) (log : List ℕ) (b : Bool)
    → IsLimited max_m max_h log t
    → t ≤ now
    → admits max_m max_h log now ≡ b
    → IsLimited max_m max_h (if b then log ++ (now ∷ []) else log) now
IsLimited-if max_m max_h t now log true v h e = IsLimited-append max_m max_h t now log v h e
IsLimited-if max_m max_h t now log false v h e = IsLimited-later max_m max_h t now log v h

reference-IsLimited :
    (max_m max_h : ℕ) (times : List ℕ) (log : List ℕ) (t : ℕ)
    → IsLimited max_m max_h log t
    → Ascending t times
    → (start : ℕ)
    → (within one_minute start (reference max_m max_h log times) ≤ max_m)
      × (within one_hour start (reference max_m max_h log times) ≤ max_h)
unfolding reference Ascending
reference-IsLimited max_m max_h [] log t v a start = (v.minutes start, v.hours start)
reference-IsLimited max_m max_h (now ∷ times) log t v (h, a) start =
    let b = admits max_m max_h log now in
    reference-IsLimited max_m max_h times (if b then log ++ (now ∷ []) else log) now
      (IsLimited-if max_m max_h t now log b v h refl) a start

-- While the clock does not go back, a new limiter lets through at most `max_m` orders in any
-- minute, wherever it starts, and at most `max_h` in any hour.
pub run_windows :
    (max_m max_h : ℕ) (times : List ℕ)
    → Ascending 0 times
    → (start : ℕ)
    → (within one_minute start ((run (new max_m max_h) times).1) ≤ max_m)
      × (within one_hour start ((run (new max_m max_h) times).1) ≤ max_h)
unfolding count_if
run_windows max_m max_h times a start =
    let empty : IsLimited max_m max_h [] 0 = record {
      nothing_later = λ c k. refl;
      minutes = λ s. omega arith;
      hours = λ s. omega arith;
    } in
    let kept = reference-IsLimited max_m max_h times [] 0 empty a start in
    rw (run-refines_reference max_m max_h times a) kept
