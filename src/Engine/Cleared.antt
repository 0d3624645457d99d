-- ===== src/Engine/Cleared.antt =====
-- What services/execution_service_rust/src/engine.rs has made sure of when it sends an order.
use arbees.Prelude.{◌≡◌, ◌≢◌, ◌⊎◌, inl, inr, sym, ap, ◌∙◌, false, none, [], arith}
use arbees.Prelude.Int.{ltb_ℤ}
use arbees.Prelude.Float.{Float}
use arbees.RateLimiter
use arbees.KillSwitch.{is_enabled}
use arbees.Idempotency.{IdempotencyResult, new_key, duplicate}
use arbees.Idempotency
use arbees.Engine.State.{Platform, ExecutionRequest, ok, World, ExecutionEngine}
use arbees.Engine.Balance.{validate_order}
use arbees.Engine.Execute.{
  is_paper, check_size, check_price, check_funds, check_order, safeguards, place, execute_among,
  execute,
}

module _ {F : Type 0} (f : Float F) where
  -- The engine after the kill switch, the limiter and the keys.
  abbrev pub admitted : World F → ExecutionEngine F → ExecutionRequest F → ExecutionEngine F
  admitted w e q = record e {
    kill_switch = (is_enabled e.kill_switch w.file_exists).0;
    rate_limiter = (RateLimiter.check_and_record e.rate_limiter w.limited_at).0;
    idempotency =
        (Idempotency.check_and_record e.idempotency q.idempotency_key q.request_id w.keyed_at).0;
  }

  -- All six safeguards let the request through.
  pub record IsCleared (w : World F) (e : ExecutionEngine F) (q : ExecutionRequest F) : Type 0 where
    pub not_halted : (is_enabled e.kill_switch w.file_exists).1 ≡ false
    pub in_rate : (RateLimiter.check_and_record e.rate_limiter w.limited_at).1 ≡ none
    pub new_request :
        (Idempotency.check_and_record e.idempotency q.idempotency_key q.request_id w.keyed_at).1
        ≡ new_key
    pub in_value : f.lt e.config.max_order_size (f.mul q.limit_price q.size) ≡ false
    pub in_contracts : ltb_ℤ e.config.max_order_contracts (f.round_i32 q.size) ≡ false
    pub above_least : f.lt q.limit_price e.config.min_safe_price ≡ false
    pub below_most : f.lt e.config.max_safe_price q.limit_price ≡ false
    pub funded :
        e.paper_trading ≡ false
        → is_paper q.platform ≡ false
        → validate_order f e.balance_cache q.platform (f.mul q.limit_price q.size) ≡ ok tt

  check_funds-none :
      (e : ExecutionEngine F) (p : Platform) (value : F)
      → check_funds f e p value ≡ none
      → e.paper_trading ≡ false
      → is_paper p ≡ false
      → validate_order f e.balance_cache p value ≡ ok tt
  unfolding check_funds
  check_funds-none e p value h live real = ground arith

  check_order-none :
      (e : ExecutionEngine F) (q : ExecutionRequest F)
      → check_order f e q ≡ none
      → (f.lt e.config.max_order_size (f.mul q.limit_price q.size) ≡ false)
        × (ltb_ℤ e.config.max_order_contracts (f.round_i32 q.size) ≡ false)
        × (f.lt q.limit_price e.config.min_safe_price ≡ false)
        × (f.lt e.config.max_safe_price q.limit_price ≡ false)
        × (check_funds f e q.platform (f.mul q.limit_price q.size) ≡ none)
  unfolding check_order check_size check_price
  check_order-none e q h = ground arith

  safeguards-none :
      (w : World F) (e : ExecutionEngine F) (q : ExecutionRequest F)
      → (safeguards f w e q).1 ≡ none
      → ((is_enabled e.kill_switch w.file_exists).1 ≡ false)
        × ((RateLimiter.check_and_record e.rate_limiter w.limited_at).1 ≡ none)
        × ((Idempotency.check_and_record e.idempotency q.idempotency_key q.request_id w.keyed_at).1
            ≡ new_key)
        × (check_order f (admitted w e q) q ≡ none)
        × ((safeguards f w e q).0 ≡ admitted w e q)
  unfolding safeguards
  safeguards-none w e q h = ground arith

  safeguards-IsCleared :
      (w : World F) (e : ExecutionEngine F) (q : ExecutionRequest F)
      → (safeguards f w e q).1 ≡ none
      → IsCleared w e q
  safeguards-IsCleared w e q h =
      let (halt, rate, key, order, same) = safeguards-none w e q h in
      let (value, contracts, least, most, funds) = check_order-none (admitted w e q) q order in
      record {
        not_halted = halt;
        in_rate = rate;
        new_request = key;
        in_value = value;
        in_contracts = contracts;
        above_least = least;
        below_most = most;
        funded = check_funds-none (admitted w e q) q.platform (f.mul q.limit_price q.size) funds;
      }

  -- Only live trading on an exchange sends an order.
  place-live :
      (w : World F) (e : ExecutionEngine F) (q : ExecutionRequest F)
      → (place f w e q).1 ≢ []
      → (e.paper_trading ≡ false) × (is_paper q.platform ≡ false)
  unfolding place
  place-live w e q h = ground arith

  -- What `execute` does once the safeguards have answered.
  execute-cases :
      (w : World F) (e : ExecutionEngine F) (q : ExecutionRequest F)
      → ((execute f w e q).2 ≡ [])
        ⊎ (((safeguards f w e q).1 ≡ none)
            × ((execute f w e q).2 ≡ (place f w ((safeguards f w e q).0) q).1))
  unfolding execute execute_among
  execute-cases w e q = ground arith

  -- Trading is live, on an exchange, and every safeguard lets the request through.
  pub record IsLive (w : World F) (e : ExecutionEngine F) (q : ExecutionRequest F) : Type 0 where
    pub cleared : IsCleared w e q
    pub live : e.paper_trading ≡ false
    pub on_exchange : is_paper q.platform ≡ false
    pub covered : validate_order f e.balance_cache q.platform (f.mul q.limit_price q.size) ≡ ok tt

  -- If `execute` sends an order, then trading is live, the platform is an exchange, the kill switch
  -- is off, the limiter lets the order through, the key is new, the value, the number of contracts
  -- and the price are within the limits of the configuration, and the cached balance covers the
  -- value with its buffer.
  pub execute-IsLive :
      (w : World F) (e : ExecutionEngine F) (q : ExecutionRequest F)
      → (execute f w e q).2 ≢ []
      → IsLive w e q
  execute-IsLive w e q sends = elim (execute-cases w e q) [
    | inl nothing ↦ absurd (sends nothing)
    | inr (passed, same) ↦
        let cleared = safeguards-IsCleared w e q passed in
        let (live, real) = place-live w ((safeguards f w e q).0) q (λ h. sends (same ∙ h)) in
        let live' : e.paper_trading ≡ false =
          sym (ap (λ e. e.paper_trading) ((safeguards-none w e q passed).4)) ∙ live in
        record {
          cleared = cleared;
          live = live';
          on_exchange = real;
          covered = cleared.funded live' real;
        }
  ]
