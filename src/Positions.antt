-- ===== src/Positions.antt =====
-- services/position_tracker_rust/src/main.rs: open positions, their exit and settlement, and the
-- bankroll.
pub mod State
pub mod Bankroll
pub mod Close
pub mod Settle
pub mod Exit
pub mod Closing
pub mod Settling
pub mod GameEnds
pub mod Conflict
pub mod Debounce
mod Tests
