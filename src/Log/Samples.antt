-- ===== src/Log/Samples.antt =====
-- Sinks and replays on small inputs: a terminal emulator that keeps its bytes as they are.
use tttt.Base.{refl, ℕ, ◌≡◌, some, List, [], ◌∷◌, ◌++◌, length, ok, arith}
use tttt.Base.Text.{Text, codes}
use tttt.Pty.Screen.{Vt100}
use tttt.Log.{output, LogEvent}
use tttt.Log.Base64
use tttt.Log.Base64.{decode-encode_bytes}
use tttt.Log.Replay
use tttt.Log.Replay.{Surroundings, SessionReplay}
use tttt.Log.Replay.Seek
use tttt.Log.Replay.Seek.{Moves-Shows}

-- The parser is its bytes with its columns and rows; every meta event is a resize to 100 by 40.
abbrev terminal : Vt100
terminal = record {
  Parser = List ℕ × (ℕ × ℕ);
  Screen = List ℕ;
  new = λ rows cols lines. ([], (cols, rows));
  process = λ bytes p. (p.0 ++ bytes, p.1);
  set_size = λ rows cols p. (p.0, (cols, rows));
  set_scrollback = λ lines p. p;
  screen = λ p. p.0;
  contents = λ s. s;
  contents_formatted = λ s. s;
  contents_diff = λ s t. s;
  cursor_position = λ s. (0, length s);
}

abbrev surroundings : Surroundings
surroundings = record { vt100 = terminal; resize_of = λ bytes. some (some 100, some 40) }

abbrev written : ℕ → Text → LogEvent
written t text = record {
  timestamp_ms = t;
  session_id = codes "pty-1";
  direction = output;
  bytes = text;
}

abbrev recording : List LogEvent
recording = written 5 (codes "a") ∷ written 9 (codes "b") ∷ []

abbrev replay : SessionReplay surroundings
replay = Replay.new surroundings recording 80 24

-- To the end and back by one.
abbrev moved : SessionReplay surroundings
moved = Replay.seek_to_index surroundings 1 (Replay.seek_to_timestamp surroundings 20 replay)

Moves-Shows_example : Seek.Shows surroundings recording 80 24 moved
Moves-Shows_example =
    Moves-Shows surroundings recording 80 24 (tt, (tt, tt))
      (Seek.next (Seek.next Seek.start (Seek.sought_time 20 replay))
        (Seek.sought 1 (Replay.seek_to_timestamp surroundings 20 replay)))

decode-encode_bytes_example :
    Base64.decode (Base64.encode (0 ∷ 27 ∷ 255 ∷ 91 ∷ [])) ≡ ok (0 ∷ 27 ∷ 255 ∷ 91 ∷ [])
decode-encode_bytes_example =
    decode-encode_bytes (0 ∷ 27 ∷ 255 ∷ 91 ∷ [])
      (omega arith, (omega arith, (omega arith, (omega arith, tt))))

encoded : Base64.encode (codes "pty") ≡ codes "cHR5"
unfolding Base64.encode Base64.char_of
encoded = refl
