-- ===== src/Kernel.antt =====
-- The Solvency Kernel: backend/underwriter/kernel. It adjudicates a proposal against the limits and
-- the account, and signs what it approves.
pub mod Limits
pub mod Context
pub mod Verdict
pub mod Rules
pub mod Sizing
pub mod Evaluate
pub mod Solvency
pub mod Scenario
mod Tests
