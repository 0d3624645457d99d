-- ===== src/ServiceRegistry.antt =====
-- services/orchestrator_rust/src/managers/service_registry.rs: the services that send heartbeats,
-- their health and the games that they are assigned, and the choice of a shard in
-- services/orchestrator_rust/src/managers/shard_manager.rs. Each method is one step; what it sends
-- to Redis is a list of messages, and a function says which of them Redis takes.
pub mod State
pub mod Heartbeat
pub mod Health
pub mod Routing
pub mod Ops
pub mod Restarts
pub mod Unassigned
pub mod Best
pub mod Checks
mod Tests
