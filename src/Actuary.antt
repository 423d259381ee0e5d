-- ===== src/Actuary.antt =====
-- The Actuary of backend/underwriter/actuary: the spreads of a snapshot, priced and ranked.
pub mod Thresholds
pub mod Formulas
pub mod Validation
pub mod Pricing
pub mod Engine
pub mod Split
pub mod Walk
pub mod Kept
pub mod Made
pub mod Quality
pub mod Insurable
mod Tests
