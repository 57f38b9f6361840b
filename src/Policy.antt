-- ===== src/Policy.antt =====
-- app/policy: the deterministic engine that judges a proposed extension.
pub mod Schemas
pub mod Engine
pub mod Order
pub mod Levels
