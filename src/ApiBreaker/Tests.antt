-- ===== src/ApiBreaker/Tests.antt =====
-- The `ApiCircuitBreaker` of rust_core/src/circuit_breaker.rs at concrete inputs.
use arbees.Prelude.{◌≡◌, refl, true, false, none, some, [], ◌∷◌, arith}
use arbees.ApiBreaker.{
  ApiCircuitBreaker, closed, open_, half_open, default_config, ask, succeed, fail, apply, run,
  is_available, record_success, record_failure, record_successes,
}
use arbees.ApiBreaker.Transitions.{Edge, apply-Edge}
use arbees.ApiBreaker.Recovery.{AfterSuccesses, is_available-recovers}

abbrev opened : ApiCircuitBreaker
opened = record {
  config = default_config;
  state = open_;
  failure_count = 5;
  success_count = 0;
  last_failure_time = some 1_000;
}

abbrev tested : ApiCircuitBreaker
tested = record opened { state = half_open }

abbrev fresh : ApiCircuitBreaker
fresh = record {
  config = default_config;
  state = closed;
  failure_count = 0;
  success_count = 0;
  last_failure_time = none;
}

-- Five failures open it, a request thirty seconds later tests it, and two successes close it.
life :
    (run
      (fail 1 ∷ fail 2 ∷ fail 3 ∷ fail 4 ∷ fail 5 ∷ ask 30_000_000_005 ∷ succeed ∷ succeed ∷ [])
      fresh).state
    ≡ closed
unfolding run apply is_available record_success record_failure
life = refl

apply-Edge_example : Edge opened (ask 7) open_ (apply (ask 7) opened).state
apply-Edge_example = apply-Edge (ask 7) opened

is_available-recovers_example :
    let (asked, allowed) = is_available opened 30_000_001_000 in
    (allowed ≡ true)
    × (allowed ≡ false → asked ≡ opened)
    × (allowed ≡ true → AfterSuccesses 2 opened (record_successes 2 asked))
is_available-recovers_example =
    is_available-recovers opened 1_000 30_000_001_000 2 refl refl (omega arith) (omega arith)
