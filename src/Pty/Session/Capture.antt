-- ===== src/Pty/Session/Capture.antt =====
-- A session under any sequence of its operations: the bookkeeping of a capture, and exits.
use tttt.Base.{
  ℕ, ◌≡◌, ◌≤◌, refl, Bool, true, false, ◌||◌, ◌⊎◌, Option, none, some, List, [], ◌∷◌, ◌++◌, length,
  take, arith, ◌∙◌, ok, err, Option-cases, Result-cases, inl, inr, length-append, append-nil,
}
use tttt.Base.Text.{Text}
use tttt.Pty.Backend.{PtyBackend, no_capture_active}
use tttt.Pty.Screen.{Vt100}
use tttt.Pty.Session
use tttt.Pty.Session.{PtySession, SessionStatus, running, exited, CaptureFile, Moment}

abbrev is_some {ℓ} : {A : Type ℓ} → Option A → Bool
is_some none = false
is_some (some a) = true

abbrev path_of : Option CaptureFile → Option Text
path_of none = none
path_of (some file) = some file.path

abbrev size_of : Option CaptureFile → ℕ
size_of none = 0
size_of (some file) = length file.written

module _ (V : Vt100) (B : PtyBackend) where
  pub data Step : PtySession V B → PtySession V B → Type 0 where
    pumped : (m : Moment) (s : PtySession V B) → Step s (Session.pump_raw V B m s).1
    started :
        (m : Moment) (wall_ms : ℕ) (s : PtySession V B)
        → Step s (Session.start_capture V B m wall_ms s).1
    stopped : (s : PtySession V B) → Step s (Session.stop_capture V B s).1
    keys_sent :
        (m : Moment) (keys : Text) (s : PtySession V B) → Step s (Session.send_keys V B m keys s).1
    raw_sent :
        (m : Moment) (bytes : List ℕ) (s : PtySession V B)
        → Step s (Session.send_raw V B m bytes s).1
    raw_tried :
        (m : Moment) (bytes : List ℕ) (s : PtySession V B)
        → Step s (Session.try_send_raw V B m bytes s).1
    resized : (cols rows : ℕ) (s : PtySession V B) → Step s (Session.resize V B cols rows s).1
    killed : (s : PtySession V B) → Step s (Session.kill V B s).1
    injected :
        (bytes : List ℕ) (s : PtySession V B) → Step s (Session.inject_screen_data V B bytes s)
    named : (name : Text) (s : PtySession V B) → Step s (Session.set_name V B name s)
    rooted : (root : Bool) (s : PtySession V B) → Step s (Session.set_root V B root s)
    placed : (dir : Text) (s : PtySession V B) → Step s (Session.set_working_dir V B dir s)
    diffed : (s : PtySession V B) → Step s (Session.screen_diff V B s).1
    kept_lines : (lines : ℕ) (s : PtySession V B) → Step s (Session.set_scrollback V B lines s)
    scrolled : (offset : ℕ) (s : PtySession V B) → Step s (Session.set_scroll_offset V B offset s)

  pub data Reach (s : PtySession V B) : PtySession V B → Type 0 where
    start : Reach s s
    next : {t u : PtySession V B} → Reach s t → Step t u → Reach s u

  -- Whether a write to the capture file may have failed in a step, and in some step.
  abbrev tears : {s t : PtySession V B} → Step s t → Bool
  tears (pumped m s) = is_some m.file_error
  tears (started m wall_ms s) = false
  tears (stopped s) = false
  tears (keys_sent m keys s) = false
  tears (raw_sent m bytes s) = false
  tears (raw_tried m bytes s) = false
  tears (resized cols rows s) = false
  tears (killed s) = false
  tears (injected bytes s) = false
  tears (named name s) = false
  tears (rooted root s) = false
  tears (placed dir s) = false
  tears (diffed s) = false
  tears (kept_lines lines s) = false
  tears (scrolled offset s) = false

  abbrev pub torn : {s t : PtySession V B} → Reach s t → Bool
  torn start = false
  torn (next r st) = tears st || torn r

  -- The path is the file's; the counter is at most the length of the file, and just that where no
  -- write has failed.
  pub record IsConsistent (failed : Bool) (s : PtySession V B) : Type 0 where
    pub path : s.capture_path ≡ path_of s.capture_file
    pub bound : s.capture_bytes ≤ size_of s.capture_file
    pub size : (failed ≡ true) ⊎ (s.capture_bytes ≡ size_of s.capture_file)

  update_status_keeps :
      (s : PtySession V B)
      → ((Session.update_status V B s).1.capture_file ≡ s.capture_file)
        × ((Session.update_status V B s).1.capture_path ≡ s.capture_path)
        × ((Session.update_status V B s).1.capture_bytes ≡ s.capture_bytes)
  unfolding Session.update_status
  update_status_keeps s = ground arith

  take_output-IsConsistent :
      (m : Moment) (bytes : List ℕ) (failed : Bool) (s : PtySession V B)
      → IsConsistent failed s
      → IsConsistent (is_some m.file_error || failed) (Session.take_output V B m bytes s).1
  unfolding Session.take_output
  take_output-IsConsistent m [] failed s h = ground arith
  take_output-IsConsistent m (c ∷ cs) failed s h = elim (Option-cases s.capture_file) [
    | inl idle ↦ ground arith
    | inr (file, active) ↦ elim (Option-cases m.file_error) [
      | inl fine ↦ ground (arith, length-append file.written (c ∷ cs))
      | inr ((why, accepted), e) ↦
          ground (arith, length-append file.written (take accepted (c ∷ cs)))
    ]
  ]

  pump_bytes-IsConsistent :
      (m : Moment) (bytes : List ℕ) (failed : Bool) (s : PtySession V B)
      → IsConsistent failed s
      → IsConsistent (is_some m.file_error || failed) (Session.pump_bytes V B m bytes s).1
  unfolding Session.pump_bytes
  pump_bytes-IsConsistent m bytes failed s h =
      let t : PtySession V B = (Session.take_output V B m bytes s).1 in
      ground (arith, take_output-IsConsistent m bytes failed s h, update_status_keeps t)

  pump_raw-IsConsistent :
      (m : Moment) (failed : Bool) (s : PtySession V B)
      → IsConsistent failed s
      → IsConsistent (is_some m.file_error || failed) (Session.pump_raw V B m s).1
  unfolding Session.pump_raw
  pump_raw-IsConsistent m failed s h =
      let s' : PtySession V B = record s { backend = (B.read Session.buffer_size s.backend).1 } in
      let h' : IsConsistent failed s' = record { path = h.path; bound = h.bound; size = h.size } in
      elim (Result-cases (B.read Session.buffer_size s.backend).0) [
        | inl (bytes, e) ↦ ground (arith, pump_bytes-IsConsistent m bytes failed s' h')
        | inr (why, e) ↦ ground arith
      ]

  Step-IsConsistent :
      (failed : Bool) {s t : PtySession V B} (st : Step s t)
      → IsConsistent failed s
      → IsConsistent (tears st || failed) t
  Step-IsConsistent failed (pumped m s) h = pump_raw-IsConsistent m failed s h
  Step-IsConsistent failed (started m wall_ms s) h = unfold Session.start_capture in ground arith
  Step-IsConsistent failed (stopped s) h = unfold Session.stop_capture in ground arith
  Step-IsConsistent failed (keys_sent m keys s) h = unfold Session.send_keys in ground arith
  Step-IsConsistent failed (raw_sent m bytes s) h = unfold Session.send_raw in ground arith
  Step-IsConsistent failed (raw_tried m bytes s) h = unfold Session.try_send_raw in ground arith
  Step-IsConsistent failed (resized cols rows s) h = unfold Session.resize in ground arith
  Step-IsConsistent failed (killed s) h = unfold Session.kill Session.update_status in ground arith
  Step-IsConsistent failed (injected bytes s) h = unfold Session.inject_screen_data in ground arith
  Step-IsConsistent failed (named name s) h = unfold Session.set_name in ground arith
  Step-IsConsistent failed (rooted root s) h = unfold Session.set_root in ground arith
  Step-IsConsistent failed (placed dir s) h = unfold Session.set_working_dir in ground arith
  Step-IsConsistent failed (diffed s) h = unfold Session.screen_diff in ground arith
  Step-IsConsistent failed (kept_lines lines s) h = unfold Session.set_scrollback in ground arith
  Step-IsConsistent failed (scrolled offset s) h = unfold Session.set_scroll_offset in ground arith

  Reach-IsConsistent :
      {s t : PtySession V B} (r : Reach s t) → IsConsistent false s → IsConsistent (torn r) t
  Reach-IsConsistent start h = h
  Reach-IsConsistent (next r st) h = Step-IsConsistent (torn r) st (Reach-IsConsistent r h)

  new-IsConsistent :
      (id : Text) (backend : B.Pty) (command : Text) (cols rows now : ℕ)
      → IsConsistent false (Session.new V B id backend command cols rows now)
  unfolding Session.new
  new-IsConsistent id backend command cols rows now = record {
    path = refl;
    bound = omega arith;
    size = inr refl;
  }

  -- After any operations but `replace_backend` on a new session, if none met an error of the capture
  -- file: `stop_capture` reports the path of the file that is being written and the number of bytes
  -- in it, or that there is none; and no capture is left.
  pub stop_capture_reports :
      (id : Text) (backend : B.Pty) (command : Text) (cols rows now : ℕ) {t : PtySession V B}
      (r : Reach (Session.new V B id backend command cols rows now) t)
      → torn r ≡ false
      → ((Session.stop_capture V B t).0 ≡ elim t.capture_file [
        | none ↦ err no_capture_active
        | some file ↦ ok (file.path, length file.written)
      ])
        × ((Session.stop_capture V B t).1.capture_file ≡ none)
  stop_capture_reports id backend command cols rows now {t} r whole =
      let h = Reach-IsConsistent r (new-IsConsistent id backend command cols rows now) in
      unfold Session.stop_capture in ground (arith, h.path, h.size, whole)

  -- After any operations but `replace_backend` on a new session, also where writes to the capture
  -- file failed half-way: if `stop_capture` succeeds, it reports the path of the file that was being
  -- written, and no more bytes than there are in it.
  pub stop_capture_bound :
      (id : Text) (backend : B.Pty) (command : Text) (cols rows now : ℕ) {t : PtySession V B}
      (path : Text) (size : ℕ)
      → Reach (Session.new V B id backend command cols rows now) t
      → (Session.stop_capture V B t).0 ≡ ok (path, size)
      → (file : CaptureFile) × (t.capture_file ≡ some file)
        × (file.path ≡ path)
        × (size ≤ length file.written)
  unfolding Session.stop_capture
  stop_capture_bound id backend command cols rows now {t} path size r success =
      let h = Reach-IsConsistent r (new-IsConsistent id backend command cols rows now) in
      elim (Option-cases t.capture_file) [
        | inl idle ↦ absurd (ground arith)
        | inr (file, active) ↦ (file, active, ground (arith, h.path), ground (arith, h.bound))
      ]

  exited_keeps :
      {s t : PtySession V B} (code : ℕ)
      → Step s t
      → s.status ≡ exited code
      → (t.status ≡ exited code) × (t.last_input_time ≡ s.last_input_time)
  exited_keeps code (pumped m s) h = unfold Session.pump_raw in ground arith
  exited_keeps code (started m wall_ms s) h = unfold Session.start_capture in ground arith
  exited_keeps code (stopped s) h = unfold Session.stop_capture in ground arith
  exited_keeps code (keys_sent m keys s) h = unfold Session.send_keys in ground arith
  exited_keeps code (raw_sent m bytes s) h = unfold Session.send_raw in ground arith
  exited_keeps code (raw_tried m bytes s) h = unfold Session.try_send_raw in ground arith
  exited_keeps code (resized cols rows s) h = unfold Session.resize in ground arith
  exited_keeps code (killed s) h = unfold Session.kill Session.update_status in ground arith
  exited_keeps code (injected bytes s) h = unfold Session.inject_screen_data in ground arith
  exited_keeps code (named name s) h = unfold Session.set_name in ground arith
  exited_keeps code (rooted root s) h = unfold Session.set_root in ground arith
  exited_keeps code (placed dir s) h = unfold Session.set_working_dir in ground arith
  exited_keeps code (diffed s) h = unfold Session.screen_diff in ground arith
  exited_keeps code (kept_lines lines s) h = unfold Session.set_scrollback in ground arith
  exited_keeps code (scrolled offset s) h = unfold Session.set_scroll_offset in ground arith

  -- A session that has exited stays so with its code through every operation but
  -- `replace_backend`, and no input is recorded for it any more.
  pub exited_is_final :
      {s t : PtySession V B} (code : ℕ)
      → Reach s t
      → s.status ≡ exited code
      → (t.status ≡ exited code) × (t.last_input_time ≡ s.last_input_time)
  exited_is_final code start h = (h, refl)
  exited_is_final code (next r st) h =
      let ih = exited_is_final code r h in
      let step = exited_keeps code st ih.0 in (step.0, step.1 ∙ ih.1)

  pump_bytes_captured :
      (m : Moment) (bytes out : List ℕ) (s : PtySession V B) (file : CaptureFile)
      → s.capture_file ≡ some file
      → (Session.pump_bytes V B m bytes s).0 ≡ ok out
      → (bytes ≡ out)
        × ((Session.pump_bytes V B m bytes s).1.capture_file
            ≡ some (record file { written = file.written ++ out }))
  unfolding Session.pump_bytes Session.take_output
  pump_bytes_captured m [] out s file active done =
      ground (arith, update_status_keeps s, append-nil file.written)
  pump_bytes_captured m (c ∷ cs) out s file active done =
      let t : PtySession V B = (Session.take_output V B m (c ∷ cs) s).1 in
      ground (arith, update_status_keeps t)

  -- While a capture is active, a pump that succeeds appends to the file exactly what it returns.
  pub pump_raw_captured :
      (m : Moment) (out : List ℕ) (s : PtySession V B) (file : CaptureFile)
      → s.capture_file ≡ some file
      → (Session.pump_raw V B m s).0 ≡ ok out
      → (Session.pump_raw V B m s).1.capture_file
        ≡ some (record file { written = file.written ++ out })
  unfolding Session.pump_raw
  pump_raw_captured m out s file active done =
      let s' : PtySession V B = record s { backend = (B.read Session.buffer_size s.backend).1 } in
      elim (Result-cases (B.read Session.buffer_size s.backend).0) [
        | inl (bytes, e) ↦
            ground (arith, pump_bytes_captured m bytes out s' file active, append-nil file.written)
        | inr (why, e) ↦ ground (arith, append-nil file.written)
      ]
