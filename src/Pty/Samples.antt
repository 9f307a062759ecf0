-- ===== src/Pty/Samples.antt =====
-- Keys, sessions and the manager on small inputs: a terminal emulator that keeps its bytes as they
-- are, and the test backend.
use tttt.Base.{◌≡◌, ◌≤◌, refl, true, false, none, some, [], ◌∷◌, ◌⊎◌, length, ok, err}
use tttt.Base.Text.{Text, codes, text_eq}
use tttt.Base.Decimal.{to_decimal}
use tttt.Base.Map
use tttt.Pty.Keys.Sequences.{bracket_sequence}
use tttt.Pty.Backend.{session_not_found, no_capture_active, mock_new, queue_output, mock}
use tttt.Pty.Plain.{terminal, noon}
use tttt.Pty.Session
use tttt.Pty.Session.{PtySession, CaptureFile, Moment, exited}
use tttt.Pty.Session.Capture
use tttt.Pty.Session.Capture.{
  stop_capture_reports, stop_capture_bound, exited_is_final, pump_raw_captured,
}
use tttt.Pty.Manager
use tttt.Pty.Manager.{SessionManager, id_number}
use tttt.Pty.Manager.Names
use tttt.Pty.Manager.Names.{IsSound, manager_Reach-IsSound}
use tttt.Pty.Manager.Lookup.{lookups_agree}
use tttt.Pty.Manager.Listing.{IsRemoved, kill_session_removes}

up_key : bracket_sequence (codes "UP") ≡ some (0x1b ∷ b'[' ∷ b'A' ∷ [])
unfolding bracket_sequence text_eq Map.get
up_key = refl

-- A shell that has written "ok".
abbrev shell : PtySession terminal mock
shell =
    Session.new terminal mock (codes "pty-1") (queue_output (codes "ok") (mock_new 80 24))
      (codes "sh") 80 24 10

abbrev capturing : PtySession terminal mock
capturing = (Session.start_capture terminal mock noon 7 shell).1

abbrev captured : PtySession terminal mock
captured = (Session.pump_raw terminal mock noon capturing).1

abbrev captured-Reach : Capture.Reach terminal mock shell captured
captured-Reach =
    Capture.next (Capture.next Capture.start (Capture.started noon 7 shell))
      (Capture.pumped noon capturing)

stop_capture_reports_example :
    ((Session.stop_capture terminal mock captured).0 ≡ elim captured.capture_file [
      | none ↦ err no_capture_active
      | some file ↦ ok (file.path, length file.written)
    ])
    × ((Session.stop_capture terminal mock captured).1.capture_file ≡ none)
stop_capture_reports_example =
    stop_capture_reports terminal mock (codes "pty-1") (queue_output (codes "ok") (mock_new 80 24))
      (codes "sh") 80 24 10 captured-Reach refl

-- The disk is full after the first byte of the output.
abbrev disk_full : Moment
disk_full = record { now = 12; file_error = some (codes "no space", 1) }

abbrev cut_short : PtySession terminal mock
cut_short = (Session.pump_raw terminal mock disk_full capturing).1

abbrev cut_short-Reach : Capture.Reach terminal mock shell cut_short
cut_short-Reach =
    Capture.next (Capture.next Capture.start (Capture.started noon 7 shell))
      (Capture.pumped disk_full capturing)

cut_short_stop :
    (Session.stop_capture terminal mock cut_short).0 ≡ ok (codes "/tmp/tttt-capture-pty-1-7.raw", 0)
unfolding Session.stop_capture Session.pump_raw Session.pump_bytes Session.take_output
    Session.start_capture Session.new queue_output mock_new to_decimal
cut_short_stop = refl

stop_capture_bound_example :
    (file : CaptureFile) × (cut_short.capture_file ≡ some file)
    × (file.path ≡ codes "/tmp/tttt-capture-pty-1-7.raw")
    × (0 ≤ length file.written)
stop_capture_bound_example =
    stop_capture_bound terminal mock (codes "pty-1") (queue_output (codes "ok") (mock_new 80 24))
      (codes "sh") 80 24 10 (codes "/tmp/tttt-capture-pty-1-7.raw") 0 cut_short-Reach cut_short_stop

-- A session that has ended by itself, after which keys are sent to it.
abbrev ended : PtySession terminal mock
ended = record shell { status = exited 3 }

exited_is_final_example :
    ((Session.send_keys terminal mock noon (codes "x") ended).1.status ≡ exited 3)
    × ((Session.send_keys terminal mock noon (codes "x") ended).1.last_input_time
        ≡ ended.last_input_time)
exited_is_final_example =
    exited_is_final terminal mock 3
      (Capture.next Capture.start (Capture.keys_sent noon (codes "x") ended)) refl

capture_active :
    capturing.capture_file
    ≡ some (record { path = codes "/tmp/tttt-capture-pty-1-7.raw"; written = [] })
unfolding Session.start_capture Session.new to_decimal
capture_active = refl

pumped_ok : (Session.pump_raw terminal mock noon capturing).0 ≡ ok (codes "ok")
unfolding Session.start_capture Session.new Session.pump_raw Session.pump_bytes Session.take_output
    queue_output mock_new Session.update_status
pumped_ok = refl

-- Two sessions, the second with a name.
abbrev editor : PtySession terminal mock
editor = Session.new terminal mock (codes "pty-2") (mock_new 80 24) (codes "vi") 80 24 11

abbrev empty_manager : SessionManager terminal mock
empty_manager = Manager.with_max_sessions terminal mock 4

abbrev one_session : SessionManager terminal mock
one_session = (Manager.add_session terminal mock shell empty_manager).1

abbrev manager : SessionManager terminal mock
manager = (Manager.add_session_with_name terminal mock editor (codes "notes") one_session).1

manager-Reach : Names.Reach terminal mock empty_manager manager
manager-Reach =
    Names.next (Names.next Names.start (Names.added shell empty_manager))
      (Names.named editor (codes "notes") one_session)

manager_Reach-IsSound_example : IsSound terminal mock manager
manager_Reach-IsSound_example = manager_Reach-IsSound terminal mock 4 manager-Reach

lookups_agree_example :
    ((s : PtySession terminal mock) × (Manager.exists terminal mock (codes "notes") manager ≡ true)
      × (Manager.get terminal mock (codes "notes") manager ≡ ok s)
      × (Manager.resolve_id terminal mock (codes "notes") manager ≡ ok s.id))
    ⊎ ((Manager.exists terminal mock (codes "notes") manager ≡ false)
        × (Manager.get terminal mock (codes "notes") manager
            ≡ err (session_not_found (codes "notes")))
        × (Manager.resolve_id terminal mock (codes "notes") manager
            ≡ err (session_not_found (codes "notes"))))
lookups_agree_example =
    lookups_agree terminal mock (codes "notes") manager
      (manager_Reach-IsSound terminal mock 4 manager-Reach)

notes_killed :
    Manager.kill_session terminal mock (codes "notes") manager
    ≡ (ok tt, (Manager.kill_session terminal mock (codes "notes") manager).1)
unfolding Manager.kill_session Manager.resolve_id Map.contains_key Map.get
    Manager.add_session_with_name Manager.add_session Manager.with_max_sessions Map.insert text_eq
    Session.new Session.set_name Session.kill Session.update_status mock_new
notes_killed = refl

kill_session_removes_example :
    (id : Text) × (Manager.resolve_id terminal mock (codes "notes") manager ≡ ok id)
    × IsRemoved terminal mock id manager
        (Manager.kill_session terminal mock (codes "notes") manager).1
kill_session_removes_example =
    kill_session_removes terminal mock (codes "notes") manager
      (Manager.kill_session terminal mock (codes "notes") manager).1
      (manager_Reach-IsSound terminal mock 4 manager-Reach) notes_killed
