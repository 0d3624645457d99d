-- ===== src/Engine/Service.antt =====
-- services/execution_service_rust/src/main.rs: `process_request`, the monitor of the daily loss, and
-- the tasks that run beside the loop, which takes one request after another. A request waits, so
-- other tasks run between its safeguards and its end: they are listed with it. The safeguards are one
-- step, since no task reads or writes two of the parts that they read. What is published and logged
-- is left out.
use arbees.Prelude.{ℕ, String, Bool, not, ◌&&◌, List, [], ◌∷◌, ◌++◌, map, if◌then◌else◌}
use arbees.Prelude.Float.{Float, zero_of}
use arbees.RateLimiter
use arbees.KillSwitch.{KillSwitch, enable, daily_loss_exceeded}
use arbees.KillSwitch
use arbees.Idempotency.{IdempotencyTracker, cleanup_expired}
use arbees.Engine.State.{
  ExecutionRequest, ExecutionResult, failed, SafeguardConfig, Result, ok, err, World, Order,
  ExecutionEngine,
}
use arbees.Engine.Balance.{DailyPnlTracker, empty_cache, refresh, record_pnl, get_loss_utilization}
use arbees.Engine.Orders.{unfilled}
use arbees.Engine.Execute.{execute_among, was_filled}

pub record Service (F : Type 0) : Type 0 where
  pub engine : ExecutionEngine F
  pub pnl_tracker : DailyPnlTracker F

-- The turns of the other tasks.
pub data Task (F : Type 0) : Type 0 where
  balance : (answer : Result F) (now : ℕ) → Task F
  monitor : Task F
  switch : (to_uppercase : String → String) (op : KillSwitch.Op) → Task F
  cleanup : (now : ℕ) → Task F

-- A request, with the turns of other tasks between its safeguards and its end, or a turn between two
-- requests.
pub data Op (F : Type 0) : Type 0 where
  request : (w : World F) (today : ℕ) (q : ExecutionRequest F) (during : List (Task F)) → Op F
  task : Task F → Op F

-- When the limiter let an order through, and when the order reached the exchange.
pub record Stamp : Type 0 where
  pub admitted_at : ℕ
  pub left_at : ℕ

abbrev pub stamp_of : {F : Type 0} → World F → Stamp
stamp_of w = record { admitted_at = w.limited_at; left_at = w.left_at }

module _ {F : Type 0} (f : Float F) where
  -- `with_safeguards`: the credentials and the executor come from the environment.
  unfoldable pub with_safeguards :
      (paper_trading has_credentials has_executor : Bool)
      → SafeguardConfig F
      → KillSwitch
      → IdempotencyTracker
      → ExecutionEngine F
  with_safeguards paper_trading has_credentials has_executor config kill_switch idempotency =
      record {
        has_credentials = has_credentials;
        has_executor = not paper_trading && has_executor;
        paper_trading = paper_trading;
        config = config;
        rate_limiter = RateLimiter.new config.max_orders_per_minute config.max_orders_per_hour;
        kill_switch = kill_switch;
        idempotency = idempotency;
        balance_cache = empty_cache f;
      }

  -- The service as `main` starts it.
  unfoldable pub started : ExecutionEngine F → ℕ → Service F
  started engine today = record {
    engine = engine;
    pnl_tracker = record { pnl = zero_of f; tracking_date = today };
  }

  -- The result that is published: an error becomes a failure.
  pub published : World F → ExecutionRequest F → Result (ExecutionResult F) → ExecutionResult F
  published w q (ok result) = result
  published w q (err e) = unfilled f q failed e q.platform w.done_at q.created_at

  -- One turn of `start_pnl_monitor`.
  unfoldable pub check_loss : DailyPnlTracker F → ExecutionEngine F → ExecutionEngine F
  check_loss d e =
      if f.le (f.ratio 1 1) (get_loss_utilization f d e.config.max_daily_loss)
      then record e { kill_switch = (enable e.kill_switch daily_loss_exceeded).0 }
      else e

  -- The balance and the monitor have no task on paper.
  unfoldable pub act : DailyPnlTracker F → Task F → ExecutionEngine F → ExecutionEngine F
  act d (balance answer now) e =
      if e.paper_trading
      then e
      else record e { balance_cache = refresh f e.has_credentials e.balance_cache answer now }
  act d monitor e = if e.paper_trading then e else check_loss d e
  act d (switch to_uppercase op) e = record e {
    kill_switch = KillSwitch.apply to_uppercase op e.kill_switch;
  }
  act d (cleanup now) e = record e { idempotency = cleanup_expired e.idempotency now }

  unfoldable pub act_all : DailyPnlTracker F → List (Task F) → ExecutionEngine F → ExecutionEngine F
  act_all d [] e = e
  act_all d (t ∷ ts) e = act_all d ts (act d t e)

  unfoldable pub process_request :
      World F
      → ℕ
      → Service F
      → ExecutionRequest F
      → List (Task F)
      → Service F × ExecutionResult F × List (Order F)
  process_request w today s q during =
      let (engine, answer, orders) = execute_among f w (act_all s.pnl_tracker during) s.engine q in
      let result = published w q answer in
      (
        record s {
          engine = engine;
          pnl_tracker =
              if was_filled result.status
              then record_pnl f s.pnl_tracker (f.neg result.fees) today
              else s.pnl_tracker;
        },
        result,
        orders,
      )

  unfoldable pub apply : Op F → Service F → Service F × List (Order F)
  apply (request w today q during) s =
      let (s', result, orders) = process_request w today s q during in (s', orders)
  apply (task t) s = (record s { engine = act s.pnl_tracker t s.engine }, [])

  abbrev pub stamped : Op F → List (Order F) → List (Stamp × Order F)
  stamped (request w today q during) orders = map (λ o. (stamp_of w, o)) orders
  stamped (task t) orders = []

  -- The orders of all the requests, each with its two times.
  unfoldable pub run : List (Op F) → Service F → Service F × List (Stamp × Order F)
  run [] s = (s, [])
  run (op ∷ ops) s =
      let (s', orders) = apply op s in
      let (end, later) = run ops s' in (end, stamped op orders ++ later)
