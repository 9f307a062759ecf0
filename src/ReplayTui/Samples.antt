-- ===== src/ReplayTui/Samples.antt =====
-- Three sessions, the last of which was long before the others.
use tttt.Base.{
  ℕ, ◌*◌, ◌/◌, ◌≡◌, refl, false, none, some, List, [], ◌∷◌, length, ok, min, max, arith,
}
use tttt.Base.Text.{codes}
use tttt.Pty.Plain.{terminal}
use tttt.Log.{output, LogEvent}
use tttt.Log.Replay
use tttt.ReplayTui.View.{
  Player, opened, stopped_at, view_key, tick_view, space, next_key, end_key, previous_key, back_key,
  plus,
}
use tttt.ReplayTui.View.Cursor.{
  Input, pressed, ticked, after, picture_of, picture_at, cursor_after, first_cursor,
}
use tttt.ReplayTui.View.Keys.{after_follows_cursor}
use tttt.ReplayTui.{SessionListEntry, by_pid, new_list, selected_session_idx}
use tttt.ReplayTui.Navigate.{down, up, moved, walked, moves_walk}

abbrev entry : ℕ → ℕ → SessionListEntry
entry started ended = record {
  session_id = codes "pty-1";
  pid = none;
  started_at_ms = started;
  ended_at_ms = some ended;
  cols = 80;
  rows = 24;
  load_strategy = by_pid;
}

abbrev older : List SessionListEntry
older = entry 9_000_000 9_500_000 ∷ entry 10 20 ∷ []

moves_walk_example :
    selected_session_idx (
      moved
        (length (entry 9_600_000 9_700_000 ∷ older))
        (down ∷ down ∷ down ∷ up ∷ [])
        (new_list (entry 9_600_000 9_700_000 ∷ older)))
    ≡ some (walked (length older) (down ∷ down ∷ down ∷ up ∷ []) 0)
moves_walk_example = moves_walk (entry 9_600_000 9_700_000) older (down ∷ down ∷ down ∷ up ∷ [])

abbrev player : Player
player = record {
  surroundings = record { vt100 = terminal; resize_of = λ bytes. none };
  Speed = ℕ;
  normal = 8;
  faster = λ speed. min (speed * 2) 128;
  slower = λ speed. max (speed / 2) 1;
  advance_ms = λ nanos speed. nanos / 1_000_000 * speed / 8;
  open_events = λ e. ok [];
}

abbrev typed : ℕ → LogEvent
typed t = record {
  timestamp_ms = t;
  session_id = codes "pty-1";
  direction = output;
  bytes = codes "x";
}

abbrev recording : List LogEvent
recording = typed 5 ∷ typed 9 ∷ typed 12 ∷ []

-- A step, the end, a step back, faster, playback for a while, and ten events back.
abbrev inputs : List Input
inputs =
    pressed 1 next_key
    ∷ pressed 2 end_key
    ∷ pressed 3 previous_key
    ∷ pressed 4 plus
    ∷ pressed 5 space
    ∷ ticked 9_000_000
    ∷ pressed 10_000_000 back_key
    ∷ []

after_follows_cursor_example :
    picture_of player (after player inputs (some (opened player 0 (entry 5 12) recording)))
    ≡ picture_at player recording
        (entry 5 12)
        (cursor_after player recording inputs (some (first_cursor player 0)))
after_follows_cursor_example =
    after_follows_cursor player 0 (entry 5 12) recording inputs (tt, (tt, (tt, tt))) (omega arith)
      (omega arith)

ends_at_start :
    picture_of player (after player inputs (some (opened player 0 (entry 5 12) recording)))
    ≡ some (0, false, 0, [])
unfolding after view_key tick_view stopped_at opened Replay.seek_to_index Replay.step_times
    Replay.step_forward Replay.new Replay.apply Replay.rewind Replay.fresh Replay.current_timestamp
    Replay.seek_to_timestamp Replay.step_until
ends_at_start = refl
