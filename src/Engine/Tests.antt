-- ===== src/Engine/Tests.antt =====
-- The theorems on services/execution_service_rust/src/engine.rs and main.rs at examples.
use arbees.Prelude.{
  ◌*◌, ℕ, sym, ◌∙◌, ◌++◌, length, ◌≡◌, ◌≢◌, ◌≤◌, ◌+◌, refl, true, false, none, List, [], ◌∷◌, All,
  arith,
}
use arbees.Prelude.Dict.{lookup}
use arbees.Engine.Orders.{execute_kalshi}
use arbees.Prelude.Int.{ℤ, pos, negsuc}
use arbees.Prelude.Count.{within}
use arbees.Prelude.Float.{fixed}
use arbees.RateLimiter.{check_and_record, one_minute, one_hour}
use arbees.KillSwitch.{KillSwitch, is_enabled}
use arbees.Idempotency.{entry_ttl}
use arbees.Engine.State.{
  kalshi, yes, nba, ExecutionRequest, SafeguardConfig, Result, ok, KalshiOrder, PolyFill, World,
  ioc, ExecutionEngine,
}
use arbees.Engine.Balance.{required, validate_order, check_balance, get_loss_utilization}
use arbees.Engine.Execute.{
  execute_among, execute, safeguards, check_order, check_size, check_price, check_funds, place,
}
use arbees.Engine.Service.{
  Service, Task, Op, process_request, request, task, balance, monitor, cleanup, act_all, apply, run,
  started, with_safeguards,
}
use arbees.Engine.Sends.{execute_among-sends}
use arbees.Engine.Cleared.{IsLive, execute-IsLive}
use arbees.Engine.Leaving.{sent_times, left_times, IsPrompt}
use arbees.Engine.Runs.{InOrder, run_order_windows}
use arbees.Engine.Once.{IsBefore, run-sends_once}
use arbees.Engine.Venues.{IsPriced, IsIoc, run-started-IsIoc}
use arbees.Engine.Loss.{run-loss_limit}

-- An order is filled in whole.
abbrev filled_order : Result KalshiOrder
filled_order = ok (record { order_id = "o1"; count = pos 10; remaining_count = none })

abbrev filled_fill : Result (PolyFill ℤ)
filled_fill = ok (record { order_id = "p1"; filled_size = pos 100_000; fill_cost = pos 50_000 })

abbrev at_time : ℕ → World ℤ
at_time now = record {
  started_at = now;
  limited_at = now;
  keyed_at = now;
  sent_at = now;
  left_at = now + 9;
  done_at = now;
  uuid = "u";
  file_exists = false;
  place_ioc_order = λ m s p n. filled_order;
  buy_fak = λ t p s. filled_fill;
  sell_fak = λ t p s. filled_fill;
}

abbrev config : SafeguardConfig ℤ
config = record {
  max_order_size = pos 1_000_000;
  max_order_contracts = pos 100;
  max_orders_per_minute = 20;
  max_orders_per_hour = 100;
  min_safe_price = pos 500;
  max_safe_price = pos 9_500;
  max_daily_loss = pos 5_000_000;
}

abbrev switch_off : KillSwitch
switch_off = record { enabled = false; has_events = true }

abbrev live_engine : ExecutionEngine ℤ
live_engine = record {
  has_credentials = true;
  has_executor = true;
  paper_trading = false;
  config = config;
  rate_limiter = record { order_timestamps = []; max_per_minute = 20; max_per_hour = 100 };
  kill_switch = switch_off;
  idempotency = [];
  balance_cache = record {
    kalshi_balance = record { balance = pos 10_000_000; last_updated = 5; is_stale = false };
    polymarket_balance = record { balance = pos 0; last_updated = 0; is_stale = true };
  };
}

-- Ten contracts at half a dollar.
abbrev ten : ExecutionRequest ℤ
ten = record {
  request_id = "r1";
  idempotency_key = "k1";
  game_id = "g1";
  sport = nba;
  platform = kalshi;
  market_id = "m1";
  contract_team = none;
  token_id = none;
  side = yes;
  limit_price = pos 5_000;
  size = pos 100_000;
  signal_id = "s1";
  signal_type = "edge";
  edge_pct = pos 300;
  created_at = 1;
}

abbrev live_service : Service ℤ
live_service = record {
  engine = live_engine;
  pnl_tracker = record { pnl = pos 0; tracking_date = 1 };
}

ten-sent : (execute fixed (at_time 7) live_engine ten).2 ≡ ioc "m1" "yes" (pos 5_000) (pos 10) ∷ []
unfolding execute execute_among safeguards is_enabled check_and_record fixed
    arbees.Idempotency.check_and_record lookup check_order check_size check_price check_funds
    validate_order check_balance required place execute_kalshi
ten-sent = refl

ten-sends : (execute fixed (at_time 7) live_engine ten).2 ≢ []
ten-sends e = ground (arith, ten-sent)

-- A balance and a cleanup while the request waits.
abbrev waiting : List (Task ℤ)
waiting = balance (ok (pos 9_000_000)) 8 ∷ cleanup 9 ∷ []

ten-applied : (apply fixed (request (at_time 7) 1 ten waiting) live_service).1 ≢ []
unfolding apply process_request
ten-applied e = ten-sends (
    sym (
      execute_among-sends fixed (at_time 7) (act_all fixed live_service.pnl_tracker waiting)
        live_engine ten)
    ∙ e)

execute-IsLive_example : IsLive fixed (at_time 7) live_engine ten
execute-IsLive_example = execute-IsLive fixed (at_time 7) live_engine ten ten-sends

abbrev between : List (Op ℤ)
between =
    task monitor
    ∷ task (cleanup 60_000_000_000)
    ∷ request (at_time 61_000_000_000) 1 ten (monitor ∷ [])
    ∷ []

between-IsBefore : All (IsBefore fixed (7 + entry_ttl)) between
between-IsBefore = (tt, (omega arith, ((omega arith, (tt, tt)), tt)))

run-sends_once_example :
    (apply fixed
      (request (at_time 90_000_000_000) 1 ten [])
      ((run fixed between ((apply fixed (request (at_time 7) 1 ten waiting) live_service).0)).0)).1
    ≡ []
run-sends_once_example =
    run-sends_once fixed live_service (at_time 7) (at_time 90_000_000_000) 1 1 ten ten waiting []
      between ten-applied refl (omega arith) (tt, (omega arith, tt)) between-IsBefore (omega arith)

abbrev day : List (Op ℤ)
day = task (balance (ok (pos 10_000_000)) 5) ∷ request (at_time 7) 1 ten waiting ∷ between

day-InOrder : InOrder fixed 0 day
day-InOrder = (omega arith, (omega arith, tt))

day-IsPrompt : All (IsPrompt fixed (1 * one_minute)) day
day-IsPrompt = (tt, ((omega arith, omega arith), (tt, (tt, ((omega arith, omega arith), tt)))))

run_order_windows_example :
    let engine = with_safeguards fixed false true true config switch_off [] in
    let sent = (run fixed day (started fixed engine 1)).1 in
    (within one_minute 3 (sent_times fixed sent) ≤ config.max_orders_per_minute)
    × (within one_hour 3 (sent_times fixed sent) ≤ config.max_orders_per_hour)
    × (within one_minute 3 (left_times fixed sent) ≤ 2 * config.max_orders_per_minute)
run_order_windows_example =
    run_order_windows fixed false true true config switch_off [] 1 1 day day-InOrder day-IsPrompt 3

day-IsPriced : All (IsPriced fixed) day
unfolding required fixed
day-IsPriced = (tt, (refl, (tt, (tt, (refl, tt)))))

run-started-IsIoc_example :
    let engine = with_safeguards fixed false true true config switch_off [] in
    All (λ x. IsIoc fixed (x.1)) ((run fixed day (started fixed engine 1)).1)
run-started-IsIoc_example =
    run-started-IsIoc fixed false true true config switch_off [] 1 day day-IsPriced

-- A loss of six hundred, of which the limit is five hundred.
abbrev lost : Service ℤ
lost = record live_service { pnl_tracker = record { pnl = negsuc 5_999_999; tracking_date = 1 } }

lost-spent :
    fixed.le
      (fixed.ratio 1 1)
      (get_loss_utilization fixed lost.pnl_tracker lost.engine.config.max_daily_loss)
    ≡ true
unfolding get_loss_utilization fixed
lost-spent = refl

run-loss_limit_example :
    ((run fixed (task monitor ∷ between) lost).1 ≡ [])
    × (length ((run fixed (request (at_time 7) 1 ten (waiting ++ (monitor ∷ [])) ∷ between) lost).1)
        ≤ 1)
    × ((run fixed between
          ((apply fixed (request (at_time 7) 1 ten (waiting ++ (monitor ∷ []))) lost).0)).1
        ≡ [])
run-loss_limit_example =
    run-loss_limit fixed lost (at_time 7) 1 ten waiting [] between refl lost-spent tt
      (tt, (tt, ((tt, tt), tt)))
