-- ===== src/Engine/Execute.antt =====
-- `execute` of services/execution_service_rust/src/engine.rs: the safeguards in their order, and
-- what a placed order leaves behind. The audit log is left out.
use Prim.Native.String.{◌++◌}
use arbees.Prelude.{
  String, Bool, true, false, not, ◌&&◌, ◌||◌, Option, none, some, List, [], if◌then◌else◌,
}
use arbees.Prelude.Int.{ℤ, pos, ltb_ℤ}
use arbees.Prelude.Float.{Float}
use arbees.RateLimiter.{RateLimitExceeded}
use arbees.RateLimiter
use arbees.KillSwitch.{is_enabled}
use arbees.Idempotency.{IdempotencyResult, new_key, duplicate}
use arbees.Idempotency
use arbees.Engine.State.{
  Platform, kalshi, polymarket, paper, ExecutionStatus, filled, ExecutionRequest, ExecutionResult,
  RejectionReason, kill_switch_active, duplicate_request, rate_limit_exceeded, insufficient_balance,
  order_size_exceeded, price_sanity_failed, SafeguardConfig, BalanceCache, Result, ok, err, World,
  Order, ExecutionEngine,
}
use arbees.Engine.Balance.{validate_order, mark_kalshi_stale, mark_polymarket_stale}
use arbees.Engine.Orders.{create_rejection, execute_paper, execute_kalshi, execute_polymarket}

abbrev pub is_paper : Platform → Bool
is_paper paper = true
is_paper _ = false

abbrev pub was_filled : ExecutionStatus → Bool
was_filled filled = true
was_filled _ = false

abbrev pub is_duplicate : IdempotencyResult → Bool
is_duplicate new_key = false
is_duplicate (duplicate t) = true

module _ {F : Type 0} (f : Float F) where
  pub limit_message : RateLimitExceeded → String
  limit_message e =
      "Rate limit exceeded: "
      ++ (f.show_int (pos e.current_count)
          ++ (" orders in "
              ++ (e.limit_type
                  ++ (" (limit: "
                      ++ (f.show_int (pos e.limit)
                          ++ ("). Retry after "
                              ++ (f.show_int (pos e.retry_after_secs) ++ "s")))))))

  -- The fourth safeguard, on the value and on the number of contracts.
  unfoldable pub check_size : SafeguardConfig F → F → ℤ → Option RejectionReason
  check_size c order_value quantity =
      if f.lt c.max_order_size order_value
      then some (
          order_size_exceeded (
            "Order value $"
            ++ (f.show 2 order_value ++ (" exceeds max $" ++ f.show 2 c.max_order_size))))
      else if ltb_ℤ c.max_order_contracts quantity
      then some (
          order_size_exceeded (
            "Contract count "
            ++ (f.show_int quantity ++ (" exceeds max " ++ f.show_int c.max_order_contracts))))
      else none

  -- The fifth.
  unfoldable pub check_price : SafeguardConfig F → F → Option RejectionReason
  check_price c limit_price =
      if f.lt limit_price c.min_safe_price || f.lt c.max_safe_price limit_price
      then some (
          price_sanity_failed (
            "Price "
            ++ (f.show 3 limit_price
                ++ (" outside safe range ["
                    ++ (f.show 2 c.min_safe_price
                        ++ (", " ++ (f.show 2 c.max_safe_price ++ "]")))))))
      else none

  -- The sixth, when trading is live.
  unfoldable pub check_funds : ExecutionEngine F → Platform → F → Option RejectionReason
  check_funds e platform order_value =
      if not e.paper_trading && not (is_paper platform)
      then elim (validate_order f e.balance_cache platform order_value) [
        | ok u ↦ none
        | err message ↦ some (insufficient_balance message)
      ]
      else none

  -- The last three.
  unfoldable pub check_order : ExecutionEngine F → ExecutionRequest F → Option RejectionReason
  check_order e q =
      let order_value = f.mul q.limit_price q.size in
      elim (check_size e.config order_value (f.round_i32 q.size)) [
        | some reason ↦ some reason
        | none ↦ elim (check_price e.config q.limit_price) [
          | some reason ↦ some reason
          | none ↦ check_funds e q.platform order_value
        ]
      ]

  -- All of them, with the reason of the first that fails.
  unfoldable pub safeguards :
      World F → ExecutionEngine F → ExecutionRequest F → ExecutionEngine F × Option RejectionReason
  safeguards w e q =
      let (kill_switch, halted) = is_enabled e.kill_switch w.file_exists in
      let e1 = record e { kill_switch = kill_switch } in
      if halted
      then (e1, some kill_switch_active)
      else let (limiter, limited) = RateLimiter.check_and_record e.rate_limiter w.limited_at in
        let e2 = record e1 { rate_limiter = limiter } in
        elim limited [
          | some exceeded ↦ (e2, some (rate_limit_exceeded (limit_message exceeded)))
          | none ↦
              let (keys, answer) =
                Idempotency.check_and_record e.idempotency q.idempotency_key q.request_id
                  w.keyed_at in
              let e3 = record e2 { idempotency = keys } in
              (e3, if is_duplicate answer then some duplicate_request else check_order e3 q)
        ]

  place_live :
      Platform
      → World F
      → ExecutionEngine F
      → ExecutionRequest F
      → Result (ExecutionResult F) × List (Order F)
  place_live kalshi w e q =
      let (result, orders) = execute_kalshi f e.has_credentials w q in (ok result, orders)
  place_live polymarket w e q = execute_polymarket f e.has_executor w q
  place_live paper w e q = (ok (execute_paper f w q), [])

  unfoldable pub place :
      World F → ExecutionEngine F → ExecutionRequest F → Result (ExecutionResult F) × List (Order F)
  unfolding place_live
  place w e q =
      if e.paper_trading then (ok (execute_paper f w q), []) else place_live q.platform w e q

  abbrev pub mark_stale : Platform → BalanceCache F → BalanceCache F
  mark_stale kalshi c = mark_kalshi_stale f c
  mark_stale polymarket c = mark_polymarket_stale f c
  mark_stale paper c = c

  -- The balance of the platform of a filled order, when trading is live.
  unfoldable pub after_order : ExecutionEngine F → Result (ExecutionResult F) → ExecutionEngine F
  after_order e (err message) = e
  after_order e (ok result) =
      if not e.paper_trading && was_filled result.status
      then record e { balance_cache = mark_stale result.platform e.balance_cache }
      else e

  -- With the orders that it sends to the exchanges. `others` is what other tasks do to the engine
  -- while it waits, from the safeguards until the balance is marked; an order leaves somewhere in
  -- between. What `place` reads of the engine never changes.
  unfoldable pub execute_among :
      World F
      → (others : ExecutionEngine F → ExecutionEngine F) → ExecutionEngine F
      → ExecutionRequest F
      → ExecutionEngine F × Result (ExecutionResult F) × List (Order F)
  execute_among w others e q =
      let (e', refused) = safeguards w e q in
      elim refused [
        | some reason ↦ (others e', ok (create_rejection f w q reason), [])
        | none ↦
            let (result, orders) = place w e' q in (after_order (others e') result, result, orders)
      ]

  -- Where no other task runs meanwhile.
  unfoldable pub execute :
      World F
      → ExecutionEngine F
      → ExecutionRequest F
      → ExecutionEngine F × Result (ExecutionResult F) × List (Order F)
  execute w e q = execute_among w (λ e. e) e q
