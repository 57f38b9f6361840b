-- ===== src/Memory.antt =====
-- app/project_memory: what a project keeps of its requirements.
pub mod Requirements
pub mod Versions
pub mod Decisions
pub mod Conflicts
