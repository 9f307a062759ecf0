-- ===== src/Pty/Session.antt =====
-- `PtySession` of crates/tttt-pty/src/session.rs, over any terminal emulator and any backend.
-- What the code reads from its surroundings is an argument: the clock, and whether the writes to
-- the capture file succeed; `write_all` may have written a first part when it fails. An exit code is
-- the bit pattern of its `i32`.
pub mod Capture
use tttt.Base.{
  ℕ, zero, suc, ◌+◌, ◌-◌, Bool, true, false, not, Option, none, some, List, [], ◌∷◌, ◌++◌, ltb, leb,
  ◌==◌, if◌then◌else◌, length, take, is_empty, Result, ok, err,
}
use tttt.Base.Text.{Text, codes}
use tttt.Base.Decimal.{to_decimal}
use tttt.Pty.Keys.{process_special_keys}
use tttt.Pty.Backend.{
  PtyBackend, PtyError, Action, session_exited, capture_already_active, no_capture_active, io,
}
use tttt.Pty.Screen
use tttt.Pty.Screen.{Vt100, ScreenBuffer}

pub data SessionStatus : Type 0 where
  running : SessionStatus
  exited : ℕ → SessionStatus

abbrev pub is_running : SessionStatus → Bool
is_running running = true
is_running (exited code) = false

-- The file of a capture: its path, and the bytes written to it.
pub record CaptureFile : Type 0 where
  pub path : Text
  pub written : List ℕ

pub record PtySession (V : Vt100) (B : PtyBackend) : Type 0 where
  pub id : Text
  pub name : Option Text
  pub backend : B.Pty
  pub screen : ScreenBuffer V
  pub status : SessionStatus
  pub command : Text
  pub created_at : ℕ
  pub last_output_time : ℕ
  pub last_input_time : ℕ
  pub capture_file : Option CaptureFile
  pub capture_path : Option Text
  pub capture_bytes : ℕ
  pub root : Bool
  pub working_dir : Option Text

pub record SessionMetadata : Type 0 where
  pub id : Text
  pub command : Text
  pub status : SessionStatus
  pub cols : ℕ
  pub rows : ℕ
  pub name : Option Text
  pub created_at : Option ℕ
  pub root : Bool
  pub working_dir : Option Text

-- The surroundings of a call: the time, and the error of the capture file, if it has one, with the
-- number of bytes that are written before it.
pub record Moment : Type 0 where
  pub now : ℕ
  pub file_error : Option (Text × ℕ)

abbrev pub buffer_size : ℕ
buffer_size = 32768

module _ (V : Vt100) (B : PtyBackend) where
  unfoldable pub new : Text → B.Pty → Text → ℕ → ℕ → ℕ → PtySession V B
  new id backend command cols rows now = record {
    id = id;
    name = none;
    backend = backend;
    screen = Screen.new_screen V cols rows;
    status = running;
    command = command;
    created_at = now;
    last_output_time = now;
    last_input_time = now;
    capture_file = none;
    capture_path = none;
    capture_bytes = 0;
    root = false;
    working_dir = none;
  }

  unfoldable pub set_name : Text → PtySession V B → PtySession V B
  set_name name s = record s { name = some name }

  unfoldable pub set_root : Bool → PtySession V B → PtySession V B
  set_root root s = record s { root = root }

  unfoldable pub set_working_dir : Text → PtySession V B → PtySession V B
  set_working_dir dir s = record s { working_dir = some dir }

  abbrev waited :
      PtySession V B
      → Result PtyError (Option ℕ) × B.Pty
      → Result PtyError (Unit {0}) × PtySession V B
  waited s (err e, backend) = (err e, record s { backend = backend })
  waited s (ok none, backend) = (ok tt, record s { backend = backend })
  waited s (ok (some code), backend) = (ok tt, record s { backend = backend; status = exited code })

  unfoldable pub update_status : Action (PtySession V B) (Unit {0})
  update_status s = if is_running s.status then waited s (B.try_wait s.backend) else (ok tt, s)

  -- `file.write_all(&buf[..n])?; self.capture_bytes += n`
  abbrev captured : Moment → List ℕ → PtySession V B → Result PtyError (Unit {0}) × PtySession V B
  captured m bytes s = elim s.capture_file [
    | none ↦ (ok tt, s)
    | some file ↦ elim m.file_error [
      | some (why, accepted) ↦ (
        err (io why),
        record s {
          capture_file = some (record file { written = file.written ++ take accepted bytes });
        },
      )
      | none ↦ (
        ok tt,
        record s {
          capture_file = some (record file { written = file.written ++ bytes });
          capture_bytes = s.capture_bytes + length bytes;
        },
      )
    ]
  ]

  -- `if n > 0 { … }`
  unfoldable pub take_output : Moment → List ℕ → Action (PtySession V B) (Unit {0})
  take_output m [] s = (ok tt, s)
  take_output m (c ∷ cs) s =
      captured m (c ∷ cs)
        (record s { screen = Screen.process V (c ∷ cs) s.screen; last_output_time = m.now })

  abbrev and_then :
      {A : Type 0} {C : Type 0}
      → Result PtyError A × PtySession V B
      → (A → Action (PtySession V B) C)
      → Result PtyError C × PtySession V B
  and_then (ok a, s) f = f a s
  and_then (err e, s) f = (err e, s)

  -- `pump_raw` behind the read
  unfoldable pub pump_bytes : Moment → List ℕ → Action (PtySession V B) (List ℕ)
  pump_bytes m bytes s =
      and_then (take_output m bytes s) λ _ s'. and_then (update_status s') λ _ t. (ok bytes, t)

  unfoldable pub pump_raw : Moment → Action (PtySession V B) (List ℕ)
  pump_raw m s =
      if is_running s.status
      then (let (read, backend) = B.read buffer_size s.backend in
          and_then (read, record s { backend = backend }) (pump_bytes m))
      else (ok [], s)

  -- `pump`: the number of bytes that were read.
  unfoldable pub pump : Moment → Action (PtySession V B) ℕ
  pump m s = and_then (pump_raw m s) λ bytes t. (ok (length bytes), t)

  unfoldable pub start_capture : Moment → ℕ → Action (PtySession V B) (Text × Text)
  start_capture m wall_ms s = elim s.capture_file [
    | some file ↦ (err capture_already_active, s)
    | none ↦
        let capture_id = s.id ++ codes "-" ++ to_decimal wall_ms in
        let path = codes "/tmp/tttt-capture-" ++ capture_id ++ codes ".raw" in
        elim m.file_error [
          | some (why, accepted) ↦ (err (io why), s)
          | none ↦ (
            ok (capture_id, path),
            record s {
              capture_file = some (record { path = path; written = [] });
              capture_path = some path;
              capture_bytes = 0;
            },
          )
        ]
  ]

  abbrev or_default : Option Text → Text
  or_default none = []
  or_default (some t) = t

  unfoldable pub stop_capture : Action (PtySession V B) (Text × ℕ)
  stop_capture s = elim s.capture_file [
    | none ↦ (err no_capture_active, s)
    | some file ↦ (
      ok (or_default s.capture_path, s.capture_bytes),
      record s { capture_path = none; capture_file = none; capture_bytes = 0 },
    )
  ]

  unfoldable pub send_raw : Moment → List ℕ → Action (PtySession V B) (Unit {0})
  send_raw m bytes s =
      if is_running s.status
      then (let (result, backend) = B.write bytes s.backend in
          (result, record s { last_input_time = m.now; backend = backend }))
      else (err session_exited, s)

  unfoldable pub send_keys : Moment → Text → Action (PtySession V B) (Unit {0})
  send_keys m keys s =
      if is_running s.status
      then (let (result, backend) = B.write (process_special_keys keys) s.backend in
          (result, record s { last_input_time = m.now; backend = backend }))
      else (err session_exited, s)

  abbrev pub touched :
      ℕ → PtySession V B → Result PtyError ℕ × B.Pty → Result PtyError ℕ × PtySession V B
  touched now s (err e, backend) = (err e, record s { backend = backend })
  touched now s (ok zero, backend) = (ok zero, record s { backend = backend })
  touched now s (ok (suc n), backend) =
      (ok (suc n), record s { backend = backend; last_input_time = now })

  unfoldable pub try_send_raw : Moment → List ℕ → Action (PtySession V B) ℕ
  try_send_raw m bytes s =
      if is_running s.status
      then touched m.now s (B.try_write bytes s.backend)
      else (err session_exited, s)

  unfoldable pub resize : ℕ → ℕ → Action (PtySession V B) (Unit {0})
  resize cols rows s =
      let (result, backend) = B.resize cols rows s.backend in
      and_then (result, record s { backend = backend })
        λ _ s'. (ok tt, record s' { screen = Screen.resize V cols rows s'.screen })

  unfoldable pub kill : Action (PtySession V B) (Unit {0})
  kill s =
      let (result, backend) = B.kill s.backend in
      and_then (result, record s { backend = backend }) λ _ s'. update_status s'

  unfoldable pub replace_backend : B.Pty → ℕ → ℕ → PtySession V B → PtySession V B
  replace_backend backend cols rows s = record s {
    backend = backend;
    status = running;
    screen = Screen.new_screen V cols rows;
  }

  unfoldable pub inject_screen_data : List ℕ → PtySession V B → PtySession V B
  inject_screen_data bytes s = record s { screen = Screen.process V bytes s.screen }

  unfoldable pub metadata : PtySession V B → SessionMetadata
  metadata s = record {
    id = s.id;
    command = s.command;
    status = s.status;
    cols = s.screen.cols;
    rows = s.screen.rows;
    name = s.name;
    created_at = some s.created_at;
    root = s.root;
    working_dir = s.working_dir;
  }

  unfoldable pub get_screen : PtySession V B → Text
  get_screen s = Screen.contents V s.screen

  unfoldable pub get_screen_formatted : PtySession V B → List ℕ
  get_screen_formatted s = Screen.contents_formatted V s.screen

  unfoldable pub screen_diff : PtySession V B → List ℕ × PtySession V B
  screen_diff s =
      let (diff, screen) = Screen.contents_diff V s.screen in (diff, record s { screen = screen })

  unfoldable pub cursor_position : PtySession V B → ℕ × ℕ
  cursor_position s = Screen.cursor_position V s.screen

  unfoldable pub set_scrollback : ℕ → PtySession V B → PtySession V B
  set_scrollback lines s = record s { screen = Screen.set_scrollback V lines s.screen }

  unfoldable pub set_scroll_offset : ℕ → PtySession V B → PtySession V B
  set_scroll_offset offset s = record s { screen = Screen.set_scroll_offset V offset s.screen }

  -- In nanoseconds.
  unfoldable pub idle_at : ℕ → PtySession V B → ℕ
  idle_at now s = now - s.last_output_time
