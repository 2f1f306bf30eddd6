-- ===== src/Mcp.antt =====
-- The MCP endpoint of the web server: its in-process guard.
pub mod Guard
