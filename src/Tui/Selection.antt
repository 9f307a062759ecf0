-- ===== src/Tui/Selection.antt =====
-- `Selection` of crates/tttt-tui/src/selection.rs. A cell is a row and a column. The screen of the
-- terminal emulator is a parameter of what reads it.
use tttt.Base.{
  ℕ, zero, suc, ◌+◌, ◌-◌, ◌≡◌, Bool, true, false, ◌&&◌, ◌||◌, Option, none, some, [], ◌∷◌, ◌++◌,
  ltb, leb, ◌==◌, if◌then◌else◌, arith, min, is_empty,
}
use tttt.Base.Text.{Text}
use tttt.Base.Space.{is_whitespace, trim_end_matches}

pub record Selection : Type 0 where
  pub anchor : ℕ × ℕ
  pub head : ℕ × ℕ

unfoldable pub new : ℕ → ℕ → Selection
new row col = record { anchor = (row, col); head = (row, col) }

unfoldable pub update : ℕ → ℕ → Selection → Selection
update row col s = record s { head = (row, col) }

unfoldable pub range : Selection → (ℕ × ℕ) × (ℕ × ℕ)
range s =
    if ltb s.anchor.0 s.head.0
    then (s.anchor, s.head)
    else if ltb s.head.0 s.anchor.0
    then (s.head, s.anchor)
    else if leb s.anchor.1 s.head.1
    then (s.anchor, s.head)
    else (s.head, s.anchor)

abbrev in_range : (ℕ × ℕ) × (ℕ × ℕ) → ℕ → ℕ → Bool
in_range (first, last) row col =
    if ltb row first.0 || ltb last.0 row
    then false
    else if first.0 == last.0
    then leb first.1 col && leb col last.1
    else if row == first.0
    then leb first.1 col
    else if row == last.0
    then leb col last.1
    else true

unfoldable pub contains : ℕ → ℕ → Selection → Bool
contains row col s = in_range (range s) row col

unfoldable pub is_empty_selection : Selection → Bool
is_empty_selection s = s.anchor.0 == s.head.0 && s.anchor.1 == s.head.1

-- What the code reads of a screen: its width, and for a cell inside whether it continues a wide
-- character, and its contents.
pub record ScreenCells : Type 0 where
  pub cols : ℕ
  pub cell : ℕ → ℕ → Option (Bool × Text)

abbrev cell_text : Option (Bool × Text) → Text
cell_text none = b' ' ∷ []
cell_text (some (true, contents)) = []
cell_text (some (false, contents)) = if is_empty contents then b' ' ∷ [] else contents

-- `n` cells of a row, from a column on.
unfoldable pub extract_cells : ScreenCells → ℕ → ℕ → ℕ → Text
extract_cells screen row col zero = []
extract_cells screen row col (suc n) =
    cell_text (screen.cell row col) ++ extract_cells screen row (col + 1) n

unfoldable pub extract_line : ScreenCells → ℕ → ℕ → ℕ → Text
extract_line screen row start_col end_col =
    let actual_end = min end_col (screen.cols - 1) in
    if ltb actual_end start_col
    then []
    else extract_cells screen row start_col (actual_end + 1 - start_col)

abbrev trim_end : Text → Text
trim_end = trim_end_matches is_whitespace

-- The rows between the first and the last, each behind a line break.
unfoldable pub middle_lines : ScreenCells → ℕ → ℕ → Text
middle_lines screen row zero = []
middle_lines screen row (suc n) =
    b'\n'
    ∷ (trim_end (extract_line screen row 0 (screen.cols - 1)) ++ middle_lines screen (row + 1) n)

abbrev text_between : ScreenCells → (ℕ × ℕ) × (ℕ × ℕ) → Text
text_between screen (first, last) =
    if first.0 == last.0
    then trim_end (extract_line screen first.0 first.1 last.1)
    else trim_end (extract_line screen first.0 first.1 (screen.cols - 1))
      ++ (middle_lines screen (first.0 + 1) (last.0 - (first.0 + 1))
          ++ (b'\n' ∷ trim_end (extract_line screen last.0 0 last.1)))

unfoldable pub extract_text : ScreenCells → Selection → Text
extract_text screen s = text_between screen (range s)

-- The reading order of cells.
unfoldable pub reads_before : ℕ × ℕ → ℕ × ℕ → Bool
reads_before a b = ltb a.0 b.0 || (a.0 == b.0 && leb a.1 b.1)

-- A selection contains exactly the cells between its two ends in reading order, whichever end
-- comes first.
pub contains_between :
    (row col : ℕ) (s : Selection)
    → contains row col s ≡ (
        (reads_before s.anchor (row, col) && reads_before (row, col) s.head)
        || (reads_before s.head (row, col) && reads_before (row, col) s.anchor))
unfolding contains range reads_before
contains_between row col s = ground arith
