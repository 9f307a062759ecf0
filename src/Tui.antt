-- ===== src/Tui.antt =====
-- crates/tttt-tui: input, selection and the viewers' protocol.
pub mod Input
pub mod Selection
pub mod Protocol
mod Samples
