-- ===== src/Orchestrator.antt =====
-- app/orchestrator: the declarative state machines of projects and tasks.
pub mod Transitions
pub mod Subjects
pub mod Guards
pub mod Machine
pub mod Engine
pub mod Tables
pub mod Timeouts
