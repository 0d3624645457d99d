-- ===== src/RateLimiter/Reference.antt =====
-- What holds of the orders that services/execution_service_rust/src/rate_limiter.rs lets
-- through. The reference keeps every order for good; the limiter drops those older than an hour.
use arbees.Prelude.{
  append_nil, append_assoc, ℕ, ◌+◌, ◌-◌, ◌≤◌, ◌≡◌, refl, sym, ◌∙◌, Bool, true, false, ◌&&◌, List,
  [], ◌∷◌, ◌++◌, ltb, leb, if◌then◌else◌, length, filter, drop_while, All, All-append, All-map,
  arith,
}
use arbees.Prelude.Count.{count_since, count_if, count_if-append, count_if-drop_while}
use arbees.RateLimiter.{one_minute, one_hour, RateLimiter, new, check_and_record, log_order, run}

-- The times of a list never go back, and start no earlier than a given time.
unfoldable pub Ascending : ℕ → List ℕ → Type 0
Ascending t [] = Unit
Ascending t (now ∷ times) = (t ≤ now) × Ascending now times

-- Whether an order may be placed, from the times of all the orders so far.
abbrev pub admits : ℕ → ℕ → List ℕ → ℕ → Bool
admits max_m max_h log now =
    ltb (count_since one_minute now log) max_m && ltb (count_since one_hour now log) max_h

-- The orders let through after those of `log`, each decided from the whole history.
unfoldable pub reference : ℕ → ℕ → List ℕ → List ℕ → List ℕ
reference max_m max_h log [] = log
reference max_m max_h log (now ∷ times) =
    reference max_m max_h (if admits max_m max_h log now then log ++ (now ∷ []) else log) times

count_if-filter : (p : ℕ → Bool) (xs : List ℕ) → length (filter p xs) ≡ count_if p xs
unfolding count_if
count_if-filter p [] = refl
count_if-filter p (x ∷ xs) = ground (arith, count_if-filter p xs)

pub Ascending-weaken : (s t : ℕ) (xs : List ℕ) → s ≤ t → Ascending t xs → Ascending s xs
unfolding Ascending
Ascending-weaken s t [] h a = tt
Ascending-weaken s t (x ∷ xs) h (b, a) = (omega arith, a)

Ascending-append :
    (t now : ℕ) (xs : List ℕ)
    → t ≤ now
    → All (λ x. x ≤ now) xs
    → Ascending t xs
    → Ascending t (xs ++ (now ∷ []))
unfolding Ascending
Ascending-append t now [] h _ _ = (h, tt)
Ascending-append t now (x ∷ xs) h (p, ps) (b, a) = (b, Ascending-append x now xs p ps a)

Ascending-drop_while :
    (p : ℕ → Bool) (t : ℕ) (xs : List ℕ) → Ascending t xs → Ascending t (drop_while p xs)
unfolding Ascending
Ascending-drop_while p t [] a = tt
Ascending-drop_while p t (x ∷ xs) (b, a) =
    ground (arith, Ascending-drop_while p x xs a, Ascending-weaken t x (drop_while p xs) b)

All-drop_while :
    (p : ℕ → Bool) (now : ℕ) (xs : List ℕ)
    → All (λ x. x ≤ now) xs
    → All (λ x. x ≤ now) (drop_while p xs)
All-drop_while p now [] a = tt
All-drop_while p now (x ∷ xs) (b, a) = ground (arith, All-drop_while p now xs a)

count_if-Ascending :
    (c t : ℕ) (xs : List ℕ) → c ≤ t → Ascending t xs → count_if (leb c) xs ≡ length xs
unfolding Ascending count_if
count_if-Ascending c t [] h a = refl
count_if-Ascending c t (x ∷ xs) h (b, a) = ground (arith, count_if-Ascending c x xs (omega arith) a)

-- Once the old entries are dropped, an entry of an ascending list counts for the last hour.
count_if-cleaned :
    (c t : ℕ) (xs : List ℕ)
    → Ascending t xs
    → count_if (leb c) (drop_while (λ x. ltb x c) xs) ≡ length (drop_while (λ x. ltb x c) xs)
unfolding Ascending count_if
count_if-cleaned c t [] a = refl
count_if-cleaned c t (x ∷ xs) (b, a) =
    ground (arith, count_if-cleaned c x xs a, count_if-Ascending c x xs)

-- The limiter's store `r` after the orders `log`, when no call has come after `t`.
record Remembers (max_m max_h : ℕ) (r : RateLimiter) (log : List ℕ) (t : ℕ) : Type 0 where
  pub minute_limit : r.max_per_minute ≡ max_m
  pub hour_limit : r.max_per_hour ≡ max_h
  pub ascending : Ascending 0 r.order_timestamps
  pub past : All (λ x. x ≤ t) r.order_timestamps
  pub same_count :
      (c : ℕ) → t ≤ c + one_hour → count_if (leb c) r.order_timestamps ≡ count_if (leb c) log

cleaned : RateLimiter → ℕ → List ℕ
cleaned r now = drop_while (λ ts. ltb ts (now - one_hour)) r.order_timestamps

cleaned-count :
    {max_m max_h : ℕ} (r : RateLimiter) (log : List ℕ) (t now c : ℕ)
    → Remembers max_m max_h r log t
    → t ≤ now
    → now ≤ c + one_hour
    → count_if (leb c) (cleaned r now) ≡ count_if (leb c) log
unfolding cleaned
cleaned-count r log t now c v h k =
    count_if-drop_while (leb c) (λ ts. ltb ts (now - one_hour)) r.order_timestamps
      (λ x d p. ground arith)
    ∙ v.same_count c (omega arith)

-- What one call logs and what it keeps.
check_and_record-cases :
    (r : RateLimiter) (now : ℕ)
    → (log_order ((check_and_record r now).1) now ≡ (
        if ltb (count_if (leb (now - one_minute)) (cleaned r now)) r.max_per_minute
          && ltb (length (cleaned r now)) r.max_per_hour
        then now ∷ []
        else []))
      × ((check_and_record r now).0.max_per_minute ≡ r.max_per_minute)
      × ((check_and_record r now).0.max_per_hour ≡ r.max_per_hour)
      × ((check_and_record r now).0.order_timestamps
          ≡ cleaned r now ++ log_order ((check_and_record r now).1) now)
unfolding check_and_record cleaned
check_and_record-cases r now =
    let same = count_if-filter (leb (now - one_minute)) (cleaned r now) in
    let no_more = append_nil (cleaned r now) in ground (arith, same, no_more)

abbrev decision : ℕ → ℕ → List ℕ → ℕ → List ℕ
decision max_m max_h log now = if admits max_m max_h log now then now ∷ [] else []

-- One call decides as the reference does.
log_order-Remembers :
    (max_m max_h : ℕ) (r : RateLimiter) (log : List ℕ) (t now : ℕ)
    → Remembers max_m max_h r log t
    → t ≤ now
    → log_order ((check_and_record r now).1) now ≡ decision max_m max_h log now
unfolding cleaned
log_order-Remembers max_m max_h r log t now v h =
    let (kept, _, _, _) = check_and_record-cases r now in
    let minute = cleaned-count r log t now (now - one_minute) v h (omega arith) in
    let hour = cleaned-count r log t now (now - one_hour) v h (omega arith) in
    let all = count_if-cleaned (now - one_hour) 0 r.order_timestamps v.ascending in
    rw (kept, minute, sym all, hour, v.minute_limit, v.hour_limit)

All-later : (s t : ℕ) (xs : List ℕ) → s ≤ t → All (λ x. x ≤ s) xs → All (λ x. x ≤ t) xs
All-later s t xs h a = All-map (λ x. x ≤ s) (λ x. x ≤ t) (λ x b. omega arith) xs a

-- A store that keeps `entries`, with the order at `now` or without.
entries_with :
    (now : ℕ) (entries : List ℕ) (b : Bool)
    → Ascending 0 entries
    → All (λ x. x ≤ now) entries
    → Ascending 0 (entries ++ (if b then now ∷ [] else []))
      × All (λ x. x ≤ now) (entries ++ (if b then now ∷ [] else []))
entries_with now entries true a p = (
  Ascending-append 0 now entries (omega arith) p a,
  All-append (λ x. x ≤ now) entries (now ∷ []) p (omega arith, tt),
)
entries_with now entries false a p = let same = append_nil entries in (rw same a, rw same p)

-- One call keeps what the next call needs.
check_and_record-Remembers :
    (max_m max_h : ℕ) (r : RateLimiter) (log : List ℕ) (t now : ℕ)
    → Remembers max_m max_h r log t
    → t ≤ now
    → Remembers max_m max_h ((check_and_record r now).0) (log ++ decision max_m max_h log now) now
unfolding cleaned
check_and_record-Remembers max_m max_h r log t now v h =
    let (kept, minute, hour, store) = check_and_record-cases r now in
    let decided = log_order-Remembers max_m max_h r log t now v h in
    let store' = rw decided at store in
    let (up, past) =
      entries_with now (cleaned r now) (admits max_m max_h log now)
        (Ascending-drop_while (λ ts. ltb ts (now - one_hour)) 0 r.order_timestamps v.ascending)
        (All-drop_while (λ ts. ltb ts (now - one_hour)) now r.order_timestamps
          (All-later t now r.order_timestamps h v.past)) in
    record {
      minute_limit = minute ∙ v.minute_limit;
      hour_limit = hour ∙ v.hour_limit;
      ascending = rw store' (up);
      past = rw store' (past);
      same_count = λ c k. rw (
        store',
        count_if-append (leb c) (cleaned r now) (decision max_m max_h log now),
        count_if-append (leb c) log (decision max_m max_h log now),
        cleaned-count r log t now c v h k,
      );
    }

append_if :
    (now : ℕ) (log : List ℕ) (b : Bool)
    → (if b then log ++ (now ∷ []) else log) ≡ log ++ (if b then now ∷ [] else [])
append_if now log true = refl
append_if now log false = sym (append_nil log)

run-reference :
    (max_m max_h : ℕ) (times : List ℕ) (r : RateLimiter) (log : List ℕ) (t : ℕ)
    → Remembers max_m max_h r log t
    → Ascending t times
    → log ++ (run r times).1 ≡ reference max_m max_h log times
unfolding run reference Ascending
run-reference max_m max_h [] r log t v a = append_nil log
run-reference max_m max_h (now ∷ times) r log t v (h, a) =
    let decided = log_order-Remembers max_m max_h r log t now v h in
    let next = log ++ decision max_m max_h log now in
    let rest =
      run-reference max_m max_h times ((check_and_record r now).0) next now
        (check_and_record-Remembers max_m max_h r log t now v h) a in
    rw (
      append_if now log (admits max_m max_h log now),
      decided,
      sym (
          append_assoc log (decision max_m max_h log now)
            ((run ((check_and_record r now).0) times).1)),
      rest,
    )

new-Remembers : (max_m max_h t : ℕ) → Remembers max_m max_h (new max_m max_h) [] t
unfolding new count_if Ascending
new-Remembers max_m max_h t = record {
  minute_limit = refl;
  hour_limit = refl;
  ascending = tt;
  past = tt;
  same_count = λ c k. refl;
}

-- While the clock does not go back, a new limiter lets through exactly the orders that a limiter
-- that forgets nothing lets through: those asked for when fewer than `max_m` of the orders so far
-- stand in the last minute, and fewer than `max_h` in the last hour.
pub run-refines_reference :
    (max_m max_h : ℕ) (times : List ℕ)
    → Ascending 0 times
    → (run (new max_m max_h) times).1 ≡ reference max_m max_h [] times
run-refines_reference max_m max_h times a =
    run-reference max_m max_h times (new max_m max_h) [] 0 (new-Remembers max_m max_h 0) a
