-- ===== src/Retry/Tests.antt =====
-- Runs of the loops of rust_core/src/db/retry.rs.
use arbees.Prelude.{ℕ, zero, suc, ◌*◌, ◌^◌, ◌≡◌, refl, String, some, [], ◌∷◌}
use arbees.Prelude.Word.{u64}
use arbees.Retry.{Result, ok, err, is_retriable_error, Outcome, retry_loop, execute_with_retry}
use arbees.Retry.Attempts.{IsRetried, execute_with_retry_lem}

-- Texts that are in lower case already.
abbrev same_text : String → String
same_text s = s

-- Two timeouts, then 42.
abbrev flaky : ℕ → Result ℕ
flaky zero = err "connection timeout"
flaky (suc zero) = err "connection timeout"
flaky (suc (suc n)) = ok 42

flaky_outcome :
    execute_with_retry same_text flaky 3
    ≡ some (record { answer = ok 42; calls = 3; pauses = 100 ∷ 200 ∷ [] })
unfolding execute_with_retry retry_loop is_retriable_error
flaky_outcome = refl

execute_with_retry_lem_example :
    (o : Outcome ℕ) × (execute_with_retry same_text flaky 3 ≡ some o)
    × IsRetried same_text (λ attempt. u64 (100 * u64 (2 ^ attempt))) flaky 3 0 o
execute_with_retry_lem_example = execute_with_retry_lem same_text flaky 3
