-- ===== src/Domain.antt =====
-- The values that the components share: backend/underwriter/domain.
pub mod Decimal
pub mod Money
pub mod Hashing
pub mod Market
pub mod Proposal
