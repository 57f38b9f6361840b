-- ===== src/Agents.antt =====
-- app/agents: the definition of an agent, its validation, and its registration.
pub mod Schemas
pub mod Validators
pub mod Factory
pub mod Registry
pub mod Checks
pub mod Levels
pub mod Lifecycle
