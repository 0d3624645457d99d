-- ===== src/Engine/Sends.antt =====
-- What one call of services/execution_service_rust/src/main.rs sends, and what it leaves of the
-- limiter, of the keys and of the balances.
use arbees.Prelude.{◌≡◌, ◌⊎◌, ◌≤◌, length, inl, inr, refl, false, none, List, [], ◌∷◌, arith}
use arbees.Prelude.Float.{Float}
use arbees.RateLimiter.{log_order}
use arbees.RateLimiter
use arbees.KillSwitch.{is_enabled}
use arbees.Idempotency.{check, clean, time_of}
use arbees.Idempotency
use arbees.Engine.State.{ExecutionRequest, ExecutionResult, Result, World, Order, ExecutionEngine}
use arbees.Engine.Balance.{DailyPnlTracker, mark_kalshi_stale, mark_polymarket_stale}
use arbees.Engine.Orders.{execute_kalshi, execute_polymarket}
use arbees.Engine.Execute.{place, safeguards, after_order, execute_among, execute}
use arbees.Engine.Service.{Task, act, check_loss}
use arbees.Engine.Cleared.{IsLive, execute-IsLive}

module _ {F : Type 0} (f : Float F) where
  length-place :
      (w : World F) (e : ExecutionEngine F) (q : ExecutionRequest F)
      → length ((place f w e q).1) ≤ 1
  unfolding place execute_kalshi execute_polymarket
  length-place w e q = ground arith

  short_cases :
      (orders : List (Order F))
      → length orders ≤ 1
      → (orders ≡ []) ⊎ ((o : Order F) × (orders ≡ o ∷ []))
  short_cases [] h = inl refl
  short_cases (o ∷ []) h = inr (o, refl)
  short_cases (o ∷ p ∷ orders) h = absurd (omega arith)

  pub length-execute :
      (w : World F) (e : ExecutionEngine F) (q : ExecutionRequest F)
      → length ((execute f w e q).2) ≤ 1
  unfolding execute execute_among
  length-execute w e q = ground (arith, length-place w ((safeguards f w e q).0) q)

  -- A request sends nothing, or one order that all safeguards let through.
  pub execute-sends :
      (w : World F) (e : ExecutionEngine F) (q : ExecutionRequest F)
      → ((execute f w e q).2 ≡ [])
        ⊎ ((o : Order F) × ((execute f w e q).2 ≡ o ∷ []) × IsLive f w e q)
  execute-sends w e q = elim (short_cases ((execute f w e q).2) (length-execute w e q)) [
    | inl nothing ↦ inl nothing
    | inr (o, same) ↦ inr (o, same, execute-IsLive f w e q (λ h. cc))
  ]

  after_order-kept :
      (e : ExecutionEngine F) (result : Result (ExecutionResult F))
      → ((after_order f e result).kill_switch ≡ e.kill_switch)
        × ((after_order f e result).rate_limiter ≡ e.rate_limiter)
        × ((after_order f e result).idempotency ≡ e.idempotency)
        × ((after_order f e result).balance_cache.polymarket_balance.balance
            ≡ e.balance_cache.polymarket_balance.balance)
  unfolding after_order mark_kalshi_stale mark_polymarket_stale
  after_order-kept e result = ground arith

  -- The safeguards leave the configuration.
  pub safeguards-config :
      (w : World F) (e : ExecutionEngine F) (q : ExecutionRequest F)
      → ((safeguards f w e q).0.config ≡ e.config)
        × ((safeguards f w e q).0.paper_trading ≡ e.paper_trading)
  unfolding safeguards
  safeguards-config w e q = ground arith

  pub safeguards-limiter :
      (w : World F) (e : ExecutionEngine F) (q : ExecutionRequest F)
      → ((safeguards f w e q).0.rate_limiter ≡ e.rate_limiter)
        ⊎ ((safeguards f w e q).0.rate_limiter
            ≡ (RateLimiter.check_and_record e.rate_limiter w.limited_at).0)
  unfolding safeguards
  safeguards-limiter w e q = ground arith

  pub safeguards-keys :
      (w : World F) (e : ExecutionEngine F) (q : ExecutionRequest F)
      → ((safeguards f w e q).0.idempotency ≡ e.idempotency)
        ⊎ ((safeguards f w e q).0.idempotency
            ≡ (Idempotency.check_and_record e.idempotency q.idempotency_key q.request_id
                w.keyed_at).0)
  unfolding safeguards
  safeguards-keys w e q = ground arith

  -- What the limiter and the keys become where the call reaches them.
  pub safeguards-reached :
      (w : World F) (e : ExecutionEngine F) (q : ExecutionRequest F)
      → (is_enabled e.kill_switch w.file_exists).1 ≡ false
      → (RateLimiter.check_and_record e.rate_limiter w.limited_at).1 ≡ none
      → ((safeguards f w e q).0.rate_limiter
          ≡ (RateLimiter.check_and_record e.rate_limiter w.limited_at).0)
        × ((safeguards f w e q).0.idempotency
            ≡ (Idempotency.check_and_record e.idempotency q.idempotency_key q.request_id
                w.keyed_at).0)
  unfolding safeguards
  safeguards-reached w e q h h' = ground arith

  pub safeguards-balance :
      (w : World F) (e : ExecutionEngine F) (q : ExecutionRequest F)
      → (safeguards f w e q).0.balance_cache ≡ e.balance_cache
  unfolding safeguards
  safeguards-balance w e q = ground arith

  -- What other tasks do does not change what a request sends.
  pub execute_among-sends :
      (w : World F) (others : ExecutionEngine F → ExecutionEngine F) (e : ExecutionEngine F)
      (q : ExecutionRequest F)
      → (execute_among f w others e q).2 ≡ (execute f w e q).2
  unfolding execute execute_among
  execute_among-sends w others e q = ground arith

  -- The switch, the limiter, the keys and the balance of Polymarket after a request are those that
  -- the other tasks leave after its safeguards.
  pub execute_among-kept :
      (w : World F) (others : ExecutionEngine F → ExecutionEngine F) (e : ExecutionEngine F)
      (q : ExecutionRequest F)
      → let after = (execute_among f w others e q).0 in
        let left = others ((safeguards f w e q).0) in
        (after.kill_switch ≡ left.kill_switch)
        × (after.rate_limiter ≡ left.rate_limiter)
        × (after.idempotency ≡ left.idempotency)
        × (after.balance_cache.polymarket_balance.balance
            ≡ left.balance_cache.polymarket_balance.balance)
  unfolding execute_among
  execute_among-kept w others e q =
      let e' = (safeguards f w e q).0 in
      let placed = place f w e' q in ground (arith, after_order-kept (others e') (placed.0))

  -- The turns of the other tasks leave the limiter.
  pub act-limiter :
      (d : DailyPnlTracker F) (t : Task F) (e : ExecutionEngine F)
      → (act f d t e).rate_limiter ≡ e.rate_limiter
  unfolding act check_loss
  act-limiter d t e = ground arith
