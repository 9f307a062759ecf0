-- ===== src/Mcp.antt =====
-- crates/tttt-mcp: the notifications on what sessions show.
pub mod Notification
pub mod Protocol
pub mod Server
pub mod Proxy
pub mod Tools
mod Samples
