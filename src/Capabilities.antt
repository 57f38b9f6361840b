-- ===== src/Capabilities.antt =====
-- app/capabilities: what the system can do, who provides it, and what a project misses.
pub mod Schemas
pub mod Registry
pub mod Matcher
pub mod Providers
pub mod Gaps
pub mod Frames
pub mod Best
