-- ===== src/Retry.antt =====
-- rust_core/src/db/retry.rs: a database operation that is tried again after errors that pass. An
-- error is its text; `to_lowercase`, with the tables of Unicode, is a parameter. The operation is
-- the results of its calls, from the call numbered 0; a pause is its milliseconds.
pub mod Attempts
mod Tests
use arbees.Prelude.Text.{contains}
use arbees.Prelude.{
  ℕ, zero, suc, ◌+◌, ◌*◌, ◌^◌, min, String, Bool, true, false, ◌&&◌, ◌||◌, Option, none, some, List,
  [], ◌∷◌, ltb, if◌then◌else◌,
}
use arbees.Prelude.Word.{u64}

pub data Result {ℓ} (T : Type ℓ) : Type ℓ where
  ok : T → Result T
  err : String → Result T

abbrev pub contains_any : List String → String → Bool
contains_any [] text = false
contains_any (part ∷ parts) text = contains text part || contains_any parts text

pub is_retriable_error : (String → String) → String → Bool
is_retriable_error to_lowercase e =
    contains_any
      ("connection" ∷ "timeout" ∷ "broken pipe" ∷ "connection reset" ∷ "connection refused"
        ∷ "connection closed" ∷ "connection lost" ∷ "could not serialize" ∷ "deadlock detected"
        ∷ "too many clients" ∷ "server closed the connection" ∷ "ssl error" ∷ "network error" ∷ [])
      (to_lowercase e)

-- The answer, how many calls were made and the pauses between them.
pub record Outcome {ℓ} (T : Type ℓ) : Type ℓ where
  pub answer : Result T
  pub calls : ℕ
  pub pauses : List ℕ

abbrev pub after_pause {ℓ} : {T : Type ℓ} → ℕ → Option (Outcome T) → Option (Outcome T)
after_pause ms none = none
after_pause ms (some o) = some (record o { pauses = ms ∷ o.pauses })

module _ {ℓ} {T : Type ℓ} (to_lowercase : String → String) where
  -- The loop after `attempt` calls, with `none` where the fuel runs out. A pause follows the call
  -- with that number.
  pub retry_loop : (backoff : ℕ → ℕ) → (ℕ → Result T) → ℕ → (fuel attempt : ℕ) → Option (Outcome T)
  retry_loop backoff f max_attempts zero attempt = none
  retry_loop backoff f max_attempts (suc fuel) attempt =
      let rest = retry_loop backoff f max_attempts fuel (attempt + 1) in
      elim (f attempt) [
        | ok result ↦ some (record { answer = ok result; calls = attempt + 1; pauses = [] })
        | err e ↦
            if ltb (attempt + 1) max_attempts && is_retriable_error to_lowercase e
            then after_pause (backoff attempt) rest
            else some (record { answer = err e; calls = attempt + 1; pauses = [] })
      ]

  pub execute_with_retry : (ℕ → Result T) → ℕ → Option (Outcome T)
  execute_with_retry f max_attempts =
      retry_loop (λ attempt. u64 (100 * u64 (2 ^ attempt))) f max_attempts (max_attempts + 1) 0

  pub execute_with_retry_custom : (ℕ → Result T) → ℕ → ℕ → ℕ → Option (Outcome T)
  execute_with_retry_custom f max_attempts base_backoff_ms max_backoff_ms =
      retry_loop (λ attempt. min (u64 (base_backoff_ms * u64 (2 ^ attempt))) max_backoff_ms) f
        max_attempts (max_attempts + 1) 0
