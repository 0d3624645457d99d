-- ===== src/Lib.antt =====
-- Arbees: the core of a prediction-market trading system, modelled from its Rust sources.
--
-- The program watches sports and crypto markets on two exchanges, Kalshi and Polymarket, finds
-- arbitrages and edges, and places orders. Prices reach the packed order books of a shared table;
-- a scan over them finds arbitrages; a tracker keeps one execution per market in flight; circuit
-- breakers and limiters stand before every order; an orchestrator hands games to shards and opens
-- a circuit per shard that fails. What is modelled:
--
--   Prelude           lists, tests, integers, machine words, bits, maps keyed by text
--   Orderbook         rust_core/src/atomic_orderbook.rs: kalshi_fee_cents, pack_orderbook,
--                     AtomicOrderbook with its update loops as interleaved steps of threads
--   MarketTable       rust_core/src/atomic_orderbook.rs: GlobalState, a table of market pairs
--   Execution         rust_core/src/execution.rs: ExecutionTracker, FastExecutionRequest
--   ArbScan           rust_core/src/simd.rs: the scalar and the vector check of arbitrages
--   CircuitBreaker    rust_core/src/circuit_breaker.rs: CircuitBreaker, its limits and halts
--   ApiBreaker        rust_core/src/circuit_breaker.rs: ApiCircuitBreaker, per client of an API
--   AssignmentCircuit services/orchestrator_rust/src/state.rs: AssignmentCircuitBreaker, per shard
--   RateLimiter       services/execution_service_rust/src/rate_limiter.rs: the order limiter
--   Positions         services/position_tracker_rust/src/main.rs: open positions, their exits, the
--                     settlement of ended games and the bankroll
--   Engine            services/execution_service_rust/src/engine.rs, balance.rs, polymarket_executor.rs and
--                     main.rs: the safeguards, the orders and the daily loss
--   CryptoRisk        services/crypto_shard_rust/src/signals/risk.rs: the checks of a crypto trade
--   CryptoArbitrage   services/crypto_shard_rust/src/signals/arbitrage.rs: arbitrage across platforms
--   ServiceRegistry   services/orchestrator_rust/src/managers/service_registry.rs, shard_manager.rs: the
--                     heartbeats and the health of services, assignment and resync of games
--   NotificationFilter services/notification_service_rust/src/filters.rs: mode, quiet hours, rate
--   Scheduler         services/notification_service_rust/src/scheduler.rs: intervals of summaries
--   Idempotency       services/execution_service_rust/src/idempotency.rs: keys seen before
--   KillSwitch        services/execution_service_rust/src/kill_switch.rs: the halt of all execution
--   Retry             rust_core/src/db/retry.rs: the retry loops of database operations
--
-- A struct is a record with the source's fields, an enum a data type, and a method a function that
-- takes the record and gives it back changed, with its answer beside it. What an atomic or a lock
-- makes one action is one step, and a call that blocks for ever says so: the trading breaker deadlocks
-- after its cooldown. The execution service takes one request after another; the turns of its other
-- tasks are steps between two requests or while one waits. Time is an argument: nanoseconds since a start that no reading
-- precedes. Numbers of w bits wrap as in a release build, which has no overflow checks; signed ones
-- are integers cut by `wrap_i64` and its like. Maps keyed by text are association lists in the
-- order of insertion. The vector type of the crate wide is known only through its lane-wise
-- comparison, which the theorem on it takes as a parameter.
--
-- The retry loops run on fuel, one more than the attempts allowed, which is shown to be enough. The
-- other loops of the sources run over a list or a fixed array, but for the compare-and-swap loops,
-- which are steps that a schedule may repeat at will: the theorems on them hold under every schedule,
-- and say nothing of how soon a loop wins.
--
-- Floating-point numbers, their formatting and JSON are known through the interfaces Prelude.Float and
-- Prelude.Json, of which a theorem names the laws it needs; examples use fixed-point numbers.
--
-- Not modelled: the Python bindings; HTTP, web sockets, Redis, ZeroMQ and the database, whose answers
-- are arguments; the models of probability and of team names, which are numeric and text scoring;
-- the signal processor and the shards' own loops; the Python services and the front end; logs and
-- metrics.
pub mod Prelude
pub mod CircuitBreaker
pub mod ApiBreaker
pub mod AssignmentCircuit
pub mod ServiceRegistry
pub mod Orderbook
pub mod Execution
pub mod Engine
pub mod CryptoRisk
pub mod CryptoArbitrage
pub mod Positions
pub mod ArbScan
pub mod MarketTable
pub mod RateLimiter
pub mod NotificationFilter
pub mod Scheduler
pub mod Idempotency
pub mod KillSwitch
pub mod Retry
