-- ===== src/Engine.antt =====
-- services/execution_service_rust: the engine that takes a request past all safeguards to an
-- exchange, with its cache of balances and the daily profit and loss.
pub mod State
pub mod Balance
pub mod Orders
pub mod Execute
pub mod Service
pub mod Cleared
pub mod Sends
pub mod Leaving
pub mod Runs
pub mod Once
pub mod Venues
pub mod Loss
mod Tests
