-- ===== src/Mcp.antt =====
-- internal/mcp: the client of tool servers.
pub mod Sse
