-- ===== src/Agent.antt =====
-- The AI underwriter of backend/underwriter/agent: it selects among priced candidates. The model, the
-- prompt, the parser of JSON with its schema, and the patterns are parameters.
pub mod Decision
pub mod Underwriter
pub mod Choice
mod Tests
