-- ===== src/Pty/Backend.antt =====
-- The trait `PtyBackend` and its test implementation `MockPty` of
-- crates/tttt-pty/src/backend.rs, and the errors of crates/tttt-pty/src/error.rs. The pseudo
-- terminals of the operating system are behind the trait, and a parameter here.
use tttt.Base.{
  ℕ, ◌+◌, Bool, true, false, Option, none, some, List, [], ◌++◌, leb, if◌then◌else◌, length, take,
  drop, Result, ok,
}
use tttt.Base.Text.{Text}

pub data PtyError : Type 0 where
  session_not_found : Text → PtyError
  max_sessions_reached : ℕ → PtyError
  duplicate_name : Text → PtyError
  session_exited : PtyError
  io spawn resize_error : Text → PtyError
  capture_already_active no_capture_active : PtyError

-- A method that may fail; what it changed before it failed stays changed.
abbrev pub Action : Type 0 → Type 0 → Type 0
Action S A = S → Result PtyError A × S

-- `read n` returns at most n bytes.
pub record PtyBackend : Type 1 where
  pub Pty : Type 0
  pub write : List ℕ → Action Pty (Unit {0})
  pub try_write : List ℕ → Action Pty ℕ
  pub read : ℕ → Action Pty (List ℕ)
  pub resize : ℕ → ℕ → Action Pty (Unit {0})
  pub kill : Action Pty (Unit {0})
  pub try_wait : Action Pty (Option ℕ)

pub record MockPty : Type 0 where
  pub output_buf : List ℕ
  pub input_buf : List ℕ
  pub exit_code : Option ℕ
  pub killed : Bool
  pub escalation_killed : Bool
  pub try_wait_calls : ℕ
  pub exit_after_n_waits : Option ℕ
  pub cols : ℕ
  pub rows : ℕ

unfoldable pub mock_new : ℕ → ℕ → MockPty
mock_new cols rows = record {
  output_buf = [];
  input_buf = [];
  exit_code = none;
  killed = false;
  escalation_killed = false;
  try_wait_calls = 0;
  exit_after_n_waits = none;
  cols = cols;
  rows = rows;
}

unfoldable pub queue_output : List ℕ → MockPty → MockPty
queue_output bytes p = record p { output_buf = p.output_buf ++ bytes }

abbrev mock_write : List ℕ → Action MockPty (Unit {0})
mock_write bytes p = (ok tt, record p { input_buf = p.input_buf ++ bytes })

-- The default of the trait: a write that never blocks.
abbrev mock_try_write : List ℕ → Action MockPty ℕ
mock_try_write bytes p = (ok (length bytes), (mock_write bytes p).1)

abbrev mock_read : ℕ → Action MockPty (List ℕ)
mock_read n p = (ok (take n p.output_buf), record p { output_buf = drop n p.output_buf })

abbrev mock_resize : ℕ → ℕ → Action MockPty (Unit {0})
mock_resize cols rows p = (ok tt, record p { cols = cols; rows = rows })

abbrev mock_kill : Action MockPty (Unit {0})
mock_kill p = (ok tt, record p { killed = true; exit_code = some 137 })

abbrev simulated_exit : Option ℕ → ℕ → Option ℕ → Option ℕ
simulated_exit (some n) calls none = if leb n calls then some 137 else none
simulated_exit _ calls code = code

abbrev mock_try_wait : Action MockPty (Option ℕ)
mock_try_wait p =
    let calls = p.try_wait_calls + 1 in
    let code = simulated_exit p.exit_after_n_waits calls p.exit_code in
    (ok code, record p { try_wait_calls = calls; exit_code = code })

abbrev mock_kill_with_escalation : Action MockPty (Unit {0})
mock_kill_with_escalation p = elim p.exit_after_n_waits [
  | none ↦ (ok tt, record p { escalation_killed = true; exit_code = some 15 })
  | some n ↦ (ok tt, record p { escalation_killed = true })
]

abbrev pub mock : PtyBackend
mock = record {
  Pty = MockPty;
  write = mock_write;
  try_write = mock_try_write;
  read = mock_read;
  resize = mock_resize;
  kill = mock_kill;
  try_wait = mock_try_wait;
}
