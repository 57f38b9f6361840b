-- ===== src/Mcp.antt =====
-- app/mcp: the registry of MCP servers, and the proposals to connect one.
pub mod Schemas
pub mod Connection
pub mod Levels
pub mod Registry
pub mod Lookup
