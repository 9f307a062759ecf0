-- ===== src/Mcp/Tools.antt =====
-- Tool handlers of crates/tttt-mcp/src/handler.rs. A lock that a panic poisoned is not modelled.
pub mod Numbers
pub mod WaitFor
pub mod Scratchpad
pub mod Schedule
mod Samples
