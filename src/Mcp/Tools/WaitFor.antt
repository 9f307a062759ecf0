-- ===== src/Mcp/Tools/WaitFor.antt =====
-- `handle_pty_wait_for`: polling a session for a pattern. A poll brings what its surroundings are:
-- what others did to the sessions since the last one, whether the call was cancelled, and the clock.
-- Times are nanoseconds; that the clock can hold the deadline is assumed.
pub mod Returns
use tttt.Base.{
  ℕ, ◌+◌, ◌-◌, ◌*◌, ◌/◌, Bool, true, false, Option, none, some, List, [], ◌∷◌, ◌++◌, leb,
  if◌then◌else◌, Result, ok, err,
}
use tttt.Base.Text.{Text, codes}
use tttt.Base.Decimal.{to_decimal}
use tttt.Pty.Backend.{
  PtyBackend, PtyError, session_not_found, max_sessions_reached, duplicate_name, session_exited, io,
  spawn, resize_error, capture_already_active, no_capture_active,
}
use tttt.Pty.Screen.{Vt100}
use tttt.Pty.Session
use tttt.Pty.Session.{PtySession, Moment}
use tttt.Pty.Manager
use tttt.Pty.Manager.{SessionManager}
use tttt.Mcp.Notification.{Regex}
use tttt.Mcp.Protocol.{Json, McpError, invalid_params, protocol, pty}
use tttt.Mcp.Tools.Numbers.{Numbers, bounded_integer}

abbrev pub max_delay_seconds : ℕ
max_delay_seconds = 86_400

-- The printed errors of crates/tttt-pty/src/error.rs.
unfoldable pub describe : PtyError → Text
describe (session_not_found key) = codes "session not found: " ++ key
describe (max_sessions_reached n) = codes "max sessions reached: " ++ to_decimal n
describe (duplicate_name name) = codes "session name already taken: " ++ name
describe session_exited = codes "session already exited"
describe (io msg) = codes "pty I/O error: " ++ msg
describe (spawn msg) = codes "pty spawn error: " ++ msg
describe (resize_error msg) = codes "resize error: " ++ msg
describe capture_already_active = codes "capture already active"
describe no_capture_active = codes "no capture active"

unfoldable pub from_pty : PtyError → McpError
from_pty e = pty (codes "PTY error: " ++ describe e)

module _ (J : Json) (N : Numbers J) (R : Regex) (V : Vt100) (B : PtyBackend) where
  pub record Poll : Type 0 where
    pub others : SessionManager V B → SessionManager V B
    pub cancelled : Bool
    pub moment : Moment
    -- the clock where a match is told, and where the deadline is checked
    pub matched_at : ℕ
    pub checked_at : ℕ

  pub record Wait : Type 0 where
    pub session_id : Text
    pub pattern : Text
    pub compiled : R.Compiled
    pub timeout_ms : ℕ
    pub start : ℕ

  abbrev pub Answer : Type 0
  Answer = Result McpError J.Value

  abbrev pub deadline : Wait → ℕ
  deadline w = w.start + w.timeout_ms * 1_000_000

  abbrev cancelled_answer : Answer
  cancelled_answer = ok (J.object ((codes "status", J.string (codes "cancelled")) ∷ []))

  abbrev matched_answer : Wait → Poll → Text → Answer
  matched_answer w p screen = ok (
      J.object (
        (codes "status", J.string (codes "matched"))
        ∷ (codes "screen", J.string screen)
        ∷ (codes "elapsed_ms", N.number ((p.matched_at - w.start) / 1_000_000))
        ∷ []))

  abbrev timed_out : Wait → Answer
  timed_out w = err (
      protocol (
        codes "timeout waiting for pattern '"
        ++ (w.pattern ++ (codes "' after " ++ (to_decimal w.timeout_ms ++ codes "ms")))))

  -- Behind `session.pump()`.
  abbrev pumped :
      Wait
      → Poll
      → SessionManager V B
      → Result PtyError ℕ × PtySession V B
      → Option Answer × SessionManager V B
  pumped w p g (err e, s) = (some (err (from_pty e)), Manager.put_back V B s g)
  pumped w p g (ok n, s) =
      let screen = Session.get_screen V B s in
      (
        if R.is_match w.compiled screen
            then some (matched_answer w p screen)
            else if leb (deadline w) p.checked_at
            then some (timed_out w)
            else none,
        Manager.put_back V B s g,
      )

  abbrev looked :
      Wait
      → Poll
      → SessionManager V B
      → Result PtyError (PtySession V B)
      → Option Answer × SessionManager V B
  looked w p g (err e) = (some (err (from_pty e)), g)
  looked w p g (ok s) = pumped w p g (Session.pump V B p.moment s)

  -- A round of the loop, and its answer if it ends the loop.
  unfoldable pub poll_once : Wait → Poll → SessionManager V B → Option Answer × SessionManager V B
  poll_once w p g =
      if p.cancelled
      then (some cancelled_answer, g)
      else looked w p g (Manager.get V B w.session_id g)

  abbrev or_next :
      (SessionManager V B → Option Answer × SessionManager V B)
      → Option Answer × SessionManager V B
      → Option Answer × SessionManager V B
  or_next rest (some a, g) = (some a, g)
  or_next rest (none, g) = rest g

  -- The loop over the polls; `none` while it waits for another.
  unfoldable pub wait_loop :
      Wait → List Poll → SessionManager V B → Option Answer × SessionManager V B
  wait_loop w [] g = (none, g)
  wait_loop w (p ∷ ps) g = or_next (λ g'. wait_loop w ps g') (poll_once w p (p.others g))

  abbrev compiled_wait :
      Text
      → Text
      → ℕ
      → ℕ
      → Result Text R.Compiled
      → List Poll
      → SessionManager V B
      → Option Answer × SessionManager V B
  compiled_wait id pattern ms start (err e) polls g =
      (some (err (invalid_params (codes "invalid regex '" ++ (pattern ++ (codes "': " ++ e))))), g)
  compiled_wait id pattern ms start (ok re) polls g =
      wait_loop
        (record {
          session_id = id;
          pattern = pattern;
          compiled = re;
          timeout_ms = ms;
          start = start;
        })
        polls g

  abbrev timed_wait :
      Text
      → Text
      → ℕ
      → Result McpError ℕ
      → List Poll
      → SessionManager V B
      → Option Answer × SessionManager V B
  timed_wait id pattern start (err e) polls g = (some (err e), g)
  timed_wait id pattern start (ok ms) polls g =
      compiled_wait id pattern ms start (R.new pattern) polls g

  abbrev checked_wait :
      J.Value
      → ℕ
      → Option Text
      → Option Text
      → List Poll
      → SessionManager V B
      → Option Answer × SessionManager V B
  checked_wait args start none pattern polls g =
      (some (err (invalid_params (codes "session_id required"))), g)
  checked_wait args start (some id) none polls g =
      (some (err (invalid_params (codes "pattern required"))), g)
  checked_wait args start (some id) (some pattern) polls g =
      timed_wait id pattern start
        (bounded_integer J N (J.index args (codes "timeout_ms")) (some 30_000)
          (max_delay_seconds * 1000) (codes "timeout_ms"))
        polls g

  unfoldable pub handle_pty_wait_for :
      J.Value → ℕ → List Poll → SessionManager V B → Option Answer × SessionManager V B
  handle_pty_wait_for args start polls g =
      checked_wait args start (J.as_str (J.index args (codes "session_id")))
        (J.as_str (J.index args (codes "pattern"))) polls g
