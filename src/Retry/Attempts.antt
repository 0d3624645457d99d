-- ===== src/Retry/Attempts.antt =====
-- How often rust_core/src/db/retry.rs calls the operation, and what it returns.
use arbees.Prelude.{
  ℕ, zero, suc, ◌+◌, ◌-◌, ◌*◌, ◌^◌, ◌≤◌, ◌<◌, ◌≡◌, refl, ap, ◌∙◌, ◌⊎◌, inl, inr, ◌&&◌, Bool-cases,
  min, max, String, Bool, true, false, Option, some, List, [], ◌∷◌, All, ltb, arith,
}
use arbees.Prelude.Word.{u64}
use arbees.Retry.{
  Result, ok, err, is_retriable_error, Outcome, after_pause, retry_loop, execute_with_retry,
  execute_with_retry_custom,
}

-- The pauses after `n` calls, from the call numbered `attempt` on.
unfoldable pub pauses_from : (ℕ → ℕ) → ℕ → ℕ → List ℕ
pauses_from backoff attempt zero = []
pauses_from backoff attempt (suc n) = backoff attempt ∷ pauses_from backoff (attempt + 1) n

pauses_from-bounded :
    (backoff : ℕ → ℕ) (limit : ℕ)
    → ((attempt : ℕ) → backoff attempt ≤ limit)
    → (attempt n : ℕ) → All (λ ms. ms ≤ limit) (pauses_from backoff attempt n)
unfolding pauses_from
pauses_from-bounded backoff limit h attempt zero = tt
pauses_from-bounded backoff limit h attempt (suc n) =
    (h attempt, pauses_from-bounded backoff limit h (attempt + 1) n)

abbrev pub custom_backoff : ℕ → ℕ → ℕ → ℕ
custom_backoff base limit attempt = min (u64 (base * u64 (2 ^ attempt))) limit

first_or_later : (i attempt : ℕ) → attempt ≤ i → (i ≡ attempt) ⊎ (attempt + 1 ≤ i)
first_or_later i attempt h = ground arith

module _ {ℓ} {T : Type ℓ} (to_lowercase : String → String) where
  abbrev pub is_retriable : Result T → Bool
  is_retriable (ok result) = false
  is_retriable (err e) = is_retriable_error to_lowercase e

  -- What an outcome of the loop is: the last call's answer, all calls before it having failed
  -- with an error that passes, and the last one not, unless the attempts had run out.
  pub record IsRetried (backoff : ℕ → ℕ) (f : ℕ → Result T) (max_attempts attempt : ℕ)
      (o : Outcome T) : Type ℓ where
    pub some_call : attempt < o.calls
    pub no_more : o.calls ≤ max (attempt + 1) max_attempts
    pub last_answer : o.answer ≡ f (o.calls - 1)
    pub earlier_failed : (i : ℕ) → attempt ≤ i → i + 1 < o.calls → is_retriable (f i) ≡ true
    pub gave_up : o.calls < max_attempts → is_retriable (f (o.calls - 1)) ≡ false
    pub paused : o.pauses ≡ pauses_from backoff attempt (o.calls - 1 - attempt)

  OutcomeOf : (backoff : ℕ → ℕ) → (ℕ → Result T) → ℕ → ℕ → Option (Outcome T) → Type ℓ
  OutcomeOf backoff f m attempt r = (o : Outcome T) × (r ≡ some o) × IsRetried backoff f m attempt o

  stops :
      (backoff : ℕ → ℕ) (f : ℕ → Result T) (m attempt : ℕ)
      → (attempt + 1 < m → is_retriable (f attempt) ≡ false)
      → IsRetried backoff f m attempt
          (record { answer = f attempt; calls = attempt + 1; pauses = [] })
  unfolding pauses_from
  stops backoff f m attempt h =
      let same : attempt + 1 - 1 ≡ attempt = omega arith in
      let none_left : attempt + 1 - 1 - attempt ≡ 0 = omega arith in
      record {
        some_call = omega arith;
        no_more = omega arith;
        last_answer = rw same refl;
        earlier_failed = λ i p q. absurd (omega arith);
        gave_up = λ l. rw same (h l);
        paused = rw none_left refl;
      }

  goes_on :
      (backoff : ℕ → ℕ) (f : ℕ → Result T) (m attempt : ℕ) (o : Outcome T)
      → attempt + 1 < m
      → is_retriable (f attempt) ≡ true
      → IsRetried backoff f m (attempt + 1) o
      → IsRetried backoff f m attempt (record o { pauses = backoff attempt ∷ o.pauses })
  unfolding pauses_from
  goes_on backoff f m attempt o l h v =
      let some_call = v.some_call in
      let one_more : o.calls - 1 - attempt ≡ suc (o.calls - 1 - (attempt + 1)) = omega arith in
      record {
        some_call = omega arith;
        no_more = omega (arith, v.no_more);
        last_answer = v.last_answer;
        earlier_failed = λ i p q. elim (first_or_later i attempt p) [
          | inl first ↦ rw first h
          | inr later ↦ v.earlier_failed i later q
        ];
        gave_up = v.gave_up;
        paused = rw (one_more, v.paused);
      }

  retry_loop-cases :
      (backoff : ℕ → ℕ) (f : ℕ → Result T) (m fuel attempt : ℕ)
      → (ltb (attempt + 1) m && is_retriable (f attempt) ≡ false
          → retry_loop to_lowercase backoff f m (suc fuel) attempt
            ≡ some (record { answer = f attempt; calls = attempt + 1; pauses = [] }))
        × (ltb (attempt + 1) m && is_retriable (f attempt) ≡ true
            → retry_loop to_lowercase backoff f m (suc fuel) attempt
              ≡ after_pause
                  (backoff attempt)
                  (retry_loop to_lowercase backoff f m fuel (attempt + 1)))
  unfolding retry_loop
  retry_loop-cases backoff f m fuel attempt = ground arith

  retry_loop-IsRetried :
      (backoff : ℕ → ℕ) (f : ℕ → Result T) (m fuel attempt : ℕ)
      → 0 < fuel
      → m ≤ attempt + fuel
      → OutcomeOf backoff f m attempt (retry_loop to_lowercase backoff f m fuel attempt)
  unfolding OutcomeOf
  retry_loop-IsRetried backoff f m zero attempt p q = absurd (omega arith)
  retry_loop-IsRetried backoff f m (suc fuel) attempt p q =
      let (last, more) = retry_loop-cases backoff f m fuel attempt in
      elim (Bool-cases (ltb (attempt + 1) m && is_retriable (f attempt))) [
        | inl again ↦
            let (o, same, v) =
              retry_loop-IsRetried backoff f m fuel (attempt + 1) (ground arith) (omega arith) in
            (
              record o { pauses = backoff attempt ∷ o.pauses },
              more again ∙ ap (after_pause (backoff attempt)) same,
              goes_on backoff f m attempt o (ground arith) (ground arith) v,
            )
        | inr ends ↦ (
          record { answer = f attempt; calls = attempt + 1; pauses = [] },
          last ends,
          stops backoff f m attempt (λ l. ground arith),
        )
      ]

  -- However the operation behaves, the loop ends: it calls the operation at least once and at most
  -- `max_attempts` times (once if that is 0), returns the answer of the last call, goes on after
  -- an error that passes and after nothing else, and pauses 100 ms, doubled after each call and
  -- cut to 64 bits, between calls.
  pub execute_with_retry_lem :
      (f : ℕ → Result T) (max_attempts : ℕ)
      → (o : Outcome T) × (execute_with_retry to_lowercase f max_attempts ≡ some o)
        × IsRetried (λ attempt. u64 (100 * u64 (2 ^ attempt))) f max_attempts 0 o
  unfolding execute_with_retry OutcomeOf
  execute_with_retry_lem f max_attempts =
      retry_loop-IsRetried (λ attempt. u64 (100 * u64 (2 ^ attempt))) f max_attempts
        (max_attempts + 1) 0 (omega arith) (omega arith)

  -- With a backoff of one's own the loop ends in the same way, with pauses doubled from the base
  -- and none of them above the limit.
  execute_with_retry_custom_lem :
      (f : ℕ → Result T) (max_attempts base limit : ℕ)
      → (o : Outcome T) × (execute_with_retry_custom to_lowercase f max_attempts base limit
          ≡ some o)
        × IsRetried (custom_backoff base limit) f max_attempts 0 o
        × All (λ ms. ms ≤ limit) o.pauses
  unfolding execute_with_retry_custom OutcomeOf
  execute_with_retry_custom_lem f max_attempts base limit =
      let (o, same, v) =
        retry_loop-IsRetried (custom_backoff base limit) f max_attempts (max_attempts + 1) 0
          (omega arith) (omega arith) in
      let bounded =
        pauses_from-bounded (custom_backoff base limit) limit (λ a. omega arith) 0
          (o.calls - 1 - 0) in
      (o, same, v, rw v.paused bounded)
