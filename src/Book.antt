-- ===== src/Book.antt =====
-- The book of backend/underwriter: its tables (db/models.py), what the cycles record in them
-- (cycle/recorder.py), and the check of the reserves (db/invariants.py).
pub mod Rows
pub mod Session
pub mod Policies
pub mod Inputs
pub mod Verdicts
pub mod Reserves
pub mod Effects
pub mod Matched
pub mod History
pub mod Kept
mod Tests
