-- ===== src/Expansion.antt =====
-- app/expansion: what to do about a capability that a project misses.
pub mod Planner
pub mod Service
pub mod Unknown
pub mod Aggregate
pub mod Activation
pub mod Pending
pub mod Servers
pub mod Approval
