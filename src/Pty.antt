-- ===== src/Pty.antt =====
-- crates/tttt-pty: sessions, their keys and their manager.
pub mod Keys
pub mod Backend
pub mod Screen
pub mod Session
pub mod Manager
pub mod Restored
pub mod Any
pub mod Plain
mod Samples
