-- ===== src/Log.antt =====
-- crates/tttt-log: events, sinks and the replay of recorded sessions.
pub mod Replay
pub mod Multi
pub mod Base64
mod Samples
use tttt.Base.{ℕ, List}
use tttt.Base.Text.{Text}

pub data Direction : Type 0 where
  input output meta : Direction

-- crates/tttt-log/src/event.rs
pub record LogEvent : Type 0 where
  pub timestamp_ms : ℕ
  pub session_id : Text
  pub direction : Direction
  pub bytes : List ℕ
