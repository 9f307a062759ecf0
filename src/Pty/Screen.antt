-- ===== src/Pty/Screen.antt =====
-- `ScreenBuffer` of crates/tttt-pty/src/screen.rs. The terminal emulator vt100 is a parameter.
use tttt.Base.{ℕ, ◌&&◌, List, ◌==◌, if◌then◌else◌}
use tttt.Base.Text.{Text}

-- What the program calls of the vt100 parser and of its screen.
pub record Vt100 : Type 1 where
  pub Parser : Type 0
  pub Screen : Type 0
  -- rows, columns, lines of scrollback
  pub new : ℕ → ℕ → ℕ → Parser
  pub process : List ℕ → Parser → Parser
  pub set_size : ℕ → ℕ → Parser → Parser
  pub set_scrollback : ℕ → Parser → Parser
  pub screen : Parser → Screen
  pub contents : Screen → Text
  pub contents_formatted : Screen → List ℕ
  pub contents_diff : Screen → Screen → List ℕ
  pub cursor_position : Screen → ℕ × ℕ

pub record ScreenBuffer (V : Vt100) : Type 0 where
  pub parser : V.Parser
  pub prev_screen : V.Screen
  pub cols : ℕ
  pub rows : ℕ
  pub scrollback_lines : ℕ

module _ (V : Vt100) where
  unfoldable pub with_scrollback : ℕ → ℕ → ℕ → ScreenBuffer V
  with_scrollback cols rows scrollback =
      let parser = V.new rows cols scrollback in
      record {
        parser = parser;
        prev_screen = V.screen parser;
        cols = cols;
        rows = rows;
        scrollback_lines = scrollback;
      }

  unfoldable pub new_screen : ℕ → ℕ → ScreenBuffer V
  new_screen cols rows = with_scrollback cols rows 1000

  unfoldable pub process : List ℕ → ScreenBuffer V → ScreenBuffer V
  process bytes b = record b { parser = V.process bytes b.parser }

  unfoldable pub contents : ScreenBuffer V → Text
  contents b = V.contents (V.screen b.parser)

  unfoldable pub contents_diff : ScreenBuffer V → List ℕ × ScreenBuffer V
  contents_diff b =
      let current = V.screen b.parser in
      (V.contents_diff current b.prev_screen, record b { prev_screen = current })

  unfoldable pub resize : ℕ → ℕ → ScreenBuffer V → ScreenBuffer V
  resize cols rows b =
      if b.cols == cols && b.rows == rows
      then b
      else (let parser = V.set_size rows cols b.parser in
          record b { cols = cols; rows = rows; parser = parser; prev_screen = V.screen parser })

  unfoldable pub set_scrollback : ℕ → ScreenBuffer V → ScreenBuffer V
  set_scrollback lines b =
      if b.scrollback_lines == lines
      then b
      else (let parser = V.new b.rows b.cols lines in
          record b { scrollback_lines = lines; parser = parser; prev_screen = V.screen parser })

  unfoldable pub contents_formatted : ScreenBuffer V → List ℕ
  contents_formatted b = V.contents_formatted (V.screen b.parser)

  unfoldable pub cursor_position : ScreenBuffer V → ℕ × ℕ
  cursor_position b = V.cursor_position (V.screen b.parser)

  unfoldable pub set_scroll_offset : ℕ → ScreenBuffer V → ScreenBuffer V
  set_scroll_offset offset b = record b { parser = V.set_scrollback offset b.parser }
