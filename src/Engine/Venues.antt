-- ===== src/Engine/Venues.antt =====
-- The exchanges that services/execution_service_rust sends orders to: the balance of Polymarket has
-- no writer, so it stays at 0.
use arbees.Prelude.{
  ℕ, ◌≡◌, ◌≢◌, inl, inr, refl, ◌∙◌, ap, Bool, true, List, [], ◌∷◌, ◌++◌, All, map, arith,
}
use arbees.Prelude.Float.{Float, zero_of}
use arbees.KillSwitch.{KillSwitch}
use arbees.Idempotency.{IdempotencyTracker}
use arbees.Engine.State.{
  polymarket, ExecutionRequest, SafeguardConfig, World, Order, ioc, ExecutionEngine, Result,
  BalanceCache,
}
use arbees.Engine.Balance.{
  DailyPnlTracker, required, validate_order, check_balance, empty_cache, no_balance, refresh,
  update_kalshi_balance, mark_kalshi_stale,
}
use arbees.Engine.Orders.{execute_kalshi}
use arbees.Engine.Execute.{execute_among, execute, place, safeguards}
use arbees.Engine.Service.{
  Stamp, stamp_of, Service, Task, Op, request, task, balance, process_request, check_loss, act,
  act_all, apply, run, started, with_safeguards,
}
use arbees.Engine.Cleared.{IsLive}
use arbees.Engine.Sends.{execute-sends, execute_among-sends, execute_among-kept, safeguards-balance}

module _ {F : Type 0} (f : Float F) where
  -- A request whose value needs more than 0.
  abbrev pub IsPriced : Op F → Type 0
  IsPriced (request w today q during) =
      f.lt (zero_of f) (required f (f.mul q.limit_price q.size)) ≡ true
  IsPriced (task t) = Unit

  abbrev pub IsIoc : Order F → Type 0
  IsIoc (ioc market_id side price quantity) = Unit
  IsIoc _ = ⊥

  abbrev pub poly_balance : Service F → F
  poly_balance s = s.engine.balance_cache.polymarket_balance.balance

  refresh-poly :
      (b : Bool) (c : BalanceCache F) (answer : Result F) (now : ℕ)
      → (refresh f b c answer now).polymarket_balance.balance ≡ c.polymarket_balance.balance
  unfolding refresh update_kalshi_balance mark_kalshi_stale
  refresh-poly b c answer now = ground arith

  act-poly :
      (d : DailyPnlTracker F) (t : Task F) (e : ExecutionEngine F)
      → (act f d t e).balance_cache.polymarket_balance.balance
        ≡ e.balance_cache.polymarket_balance.balance
  unfolding act check_loss
  act-poly d (balance answer now) e =
      ground (arith, refresh-poly e.has_credentials e.balance_cache answer now)
  act-poly d _ e = ground arith

  act_all-poly :
      (d : DailyPnlTracker F) (ts : List (Task F)) (e : ExecutionEngine F)
      → (act_all f d ts e).balance_cache.polymarket_balance.balance
        ≡ e.balance_cache.polymarket_balance.balance
  unfolding act_all
  act_all-poly d [] e = refl
  act_all-poly d (t ∷ ts) e = act_all-poly d ts (act f d t e) ∙ act-poly d t e

  apply-poly : (op : Op F) (s : Service F) → poly_balance ((apply f op s).0) ≡ poly_balance s
  unfolding apply process_request
  apply-poly (request w today q during) s =
      let others = act_all f s.pnl_tracker during in
      (execute_among-kept f w others s.engine q).3
      ∙ act_all-poly s.pnl_tracker during ((safeguards f w s.engine q).0)
      ∙ ap (λ c. c.polymarket_balance.balance) (safeguards-balance f w s.engine q)
  apply-poly (task t) s = act-poly s.pnl_tracker t s.engine

  place-IsIoc :
      (w : World F) (e : ExecutionEngine F) (q : ExecutionRequest F)
      → q.platform ≢ polymarket
      → All IsIoc ((place f w e q).1)
  unfolding place execute_kalshi
  place-IsIoc w e q h = ground arith

  execute-IsIoc :
      (w : World F) (e : ExecutionEngine F) (q : ExecutionRequest F)
      → q.platform ≢ polymarket
      → All IsIoc ((execute f w e q).2)
  unfolding execute execute_among
  execute-IsIoc w e q h = ground (arith, place-IsIoc w ((safeguards f w e q).0) q h)

  -- Without a balance nothing that costs something is sent.
  unfunded :
      (w : World F) (e : ExecutionEngine F) (q : ExecutionRequest F)
      → e.balance_cache.polymarket_balance.balance ≡ zero_of f
      → f.lt (zero_of f) (required f (f.mul q.limit_price q.size)) ≡ true
      → IsLive f w e q
      → q.platform ≢ polymarket
  unfolding validate_order check_balance
  unfunded w e q nothing priced live h = let covered = live.covered in ground arith

  sent-IsIoc :
      (w : World F) (e : ExecutionEngine F) (q : ExecutionRequest F)
      → e.balance_cache.polymarket_balance.balance ≡ zero_of f
      → f.lt (zero_of f) (required f (f.mul q.limit_price q.size)) ≡ true
      → All IsIoc ((execute f w e q).2)
  sent-IsIoc w e q nothing priced = elim (execute-sends f w e q) [
    | inl none_sent ↦ rw none_sent tt
    | inr (o, one, live) ↦ execute-IsIoc w e q (unfunded w e q nothing priced live)
  ]

  stamped-IsIoc :
      (now : Stamp) (orders : List (Order F)) (later : List (Stamp × Order F))
      → All IsIoc orders
      → All (λ x. IsIoc (x.1)) later
      → All (λ x. IsIoc (x.1)) (map (λ o. (now, o)) orders ++ later)
  stamped-IsIoc now [] later h hs = hs
  stamped-IsIoc now (o ∷ orders) later (h, h') hs = (h, stamped-IsIoc now orders later h' hs)

  run-IsIoc :
      (ops : List (Op F)) (s : Service F)
      → poly_balance s ≡ zero_of f
      → All IsPriced ops
      → All (λ x. IsIoc (x.1)) ((run f ops s).1)
  unfolding run apply process_request
  run-IsIoc [] s nothing _ = tt
  run-IsIoc (request w today q during ∷ ops) s nothing (p, ps) =
      let others = act_all f s.pnl_tracker during in
      stamped-IsIoc (stamp_of w) _ _
        (rw (execute_among-sends f w others s.engine q) (sent-IsIoc w s.engine q nothing p))
        (run-IsIoc ops _ (apply-poly (request w today q during) s ∙ nothing) ps)
  run-IsIoc (task t ∷ ops) s nothing (p, ps) = run-IsIoc ops _ (apply-poly (task t) s ∙ nothing) ps

  -- Whatever comes, if each request needs more than 0, a service that was just started sends no
  -- order to Polymarket: all its orders are for Kalshi.
  pub run-started-IsIoc :
      (paper_trading has_credentials has_executor : Bool) (c : SafeguardConfig F)
      (kill_switch : KillSwitch) (idempotency : IdempotencyTracker) (today : ℕ) (ops : List (Op F))
      → All IsPriced ops
      → let engine =
          with_safeguards f paper_trading has_credentials has_executor c kill_switch idempotency in
        All (λ x. IsIoc (x.1)) ((run f ops (started f engine today)).1)
  unfolding started with_safeguards empty_cache no_balance
  run-started-IsIoc paper_trading has_credentials has_executor c kill_switch idempotency today ops
        ps =
      run-IsIoc ops _ refl ps
