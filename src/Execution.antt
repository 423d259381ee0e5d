-- ===== src/Execution.antt =====
-- The orders of backend/underwriter/execution: their construction, and the engine that submits and
-- polls them.
pub mod Ports
pub mod Order
pub mod Engine
pub mod Attempts
pub mod Execute
pub mod Mirror
pub mod Price
pub mod Polling
pub mod Brokers
mod Slow
mod Tests
