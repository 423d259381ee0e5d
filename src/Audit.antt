-- ===== src/Audit.antt =====
-- The ledger of backend/underwriter/audit/ledger.py: rows in the order of their sequence numbers, each
-- hashed together with the hash of the row before it.
-- The session is the list of its rows, and what is read from a row is what was stored in it; the
-- sequence number that the database draws is an argument.
pub mod Chain
pub mod Seal
pub mod Ledger
mod Tests
