-- ===== src/Cycle.antt =====
-- The cycles of backend/underwriter/cycle: of cycle/bootstrap.py, the state that the Kernel is shown.
pub mod Bootstrap
pub mod Blind
pub mod Underwrite
pub mod Trades
pub mod Rebuild
pub mod Roundtrip
pub mod Manage
pub mod Closes
pub mod Recorded
mod Exits
mod Runs
mod Tests
