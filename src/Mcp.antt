-- ===== src/Mcp.antt =====
-- internal/mcpserver: the tools for agents, the server of the protocol, and what both guarantee.
pub mod Ready
pub mod Tools
pub mod Server
pub mod Blockers
pub mod Scanned
pub mod Requests
pub mod Answers
pub mod Refusals
