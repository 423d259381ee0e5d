-- ===== src/Claims.antt =====
-- The Claims Desk of backend/underwriter/claims/desk.py, which decides the exits of open policies.
pub mod Desk
pub mod Pricing
pub mod Precedence
mod Tests
