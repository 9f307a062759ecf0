-- ===== src/Pty/Plain.antt =====
-- Test data: a terminal emulator that keeps its bytes as they are, and a moment.
use tttt.Base.{ℕ, none, List, [], ◌++◌, length}
use tttt.Pty.Screen.{Vt100}
use tttt.Pty.Session.{Moment}

abbrev pub terminal : Vt100
terminal = record {
  Parser = List ℕ;
  Screen = List ℕ;
  new = λ rows cols lines. [];
  process = λ bytes p. p ++ bytes;
  set_size = λ rows cols p. p;
  set_scrollback = λ lines p. p;
  screen = λ p. p;
  contents = λ s. s;
  contents_formatted = λ s. s;
  contents_diff = λ s t. s;
  cursor_position = λ s. (0, length s);
}

abbrev pub noon : Moment
noon = record { now = 12; file_error = none }
