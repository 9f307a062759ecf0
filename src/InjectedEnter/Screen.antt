-- ===== src/InjectedEnter/Screen.antt =====
-- `input_matches` of src/injected_enter.rs: whether a text still stands in the input that the
-- screen shows. What the emulator reads off a screen is a parameter; lines are code points.
use tttt.Base.{
  ℕ, zero, suc, ◌+◌, ◌-◌, Bool, true, false, not, ◌&&◌, ◌||◌, Option, none, some, List, [], ◌∷◌,
  ◌++◌, ltb, leb, ◌==◌, if◌then◌else◌, length, take, drop, is_empty, get_elem?, min, max,
}
use tttt.Base.Text.{Text, text_eq, strip_prefix}
use tttt.Base.Space.{is_whitespace, trim, trim_start_matches, split_whitespace}
use tttt.Pty.Keys.{process_special_keys}
use tttt.Pty.Screen.{Vt100}
use tttt.Pty.Screen
use tttt.Pty.Session.{PtySession}
use tttt.Pty.Backend.{PtyBackend}

abbrev pub Line : Type 0
Line = List ℕ

pub record ScreenReader (V : Vt100) : Type 0 where
  -- the screen with no scrolling back
  pub live : V.Screen → V.Screen
  pub synchronized_output : V.Screen → Bool
  -- rows and columns
  pub size : V.Screen → ℕ × ℕ
  -- from a column on, so many columns
  pub rows : ℕ → ℕ → V.Screen → List Line
  pub hide_cursor : V.Screen → Bool
  pub row_wrapped : ℕ → V.Screen → Bool
  pub text : V.Screen → Line
  pub text_between : ℕ → ℕ → ℕ → ℕ → V.Screen → Line

abbrev is_prompt : ℕ → Bool
is_prompt c = c == 0x276f || c == 0x203a || c == b'>' || c == b'$' || c == b'#'

abbrev after_prompt : List ℕ → Bool
after_prompt [] = true
after_prompt (c ∷ cs) = c == b' ' || c == 0xa0

abbrev saturating_add : ℕ → ℕ → ℕ
saturating_add a b = min (a + b) 65535

abbrev prompt_at : ℕ → Line → Option ℕ
prompt_at indent [] = none
prompt_at indent (c ∷ cs) =
    if is_prompt c && after_prompt cs then some (saturating_add indent 2) else none

unfoldable pub prompt_input_column : Line → Option ℕ
prompt_input_column line =
    let trimmed = trim_start_matches (λ c. c == b' ') line in
    prompt_at (length line - length trimmed) trimmed

abbrev pub all : (ℕ → Bool) → Line → Bool
all p [] = true
all p (c ∷ cs) = p c && all p cs

unfoldable pub is_input_rule : Line → Bool
is_input_rule line =
    let l = trim line in leb 4 (length l) && all (λ c. c == 0x2500 || c == 0x2501) l

abbrev join : List Line → Line
join [] = []
join (w ∷ []) = w
join (w ∷ v ∷ ws) = w ++ (b' ' ∷ join (v ∷ ws))

unfoldable pub normalized_input : Line → Line
normalized_input text = join (split_whitespace text)

abbrev pub is_some {ℓ} : {A : Type ℓ} → Option A → Bool
is_some none = false
is_some (some a) = true

-- `iter().rposition(…)`
unfoldable pub rposition : (Line → Bool) → List Line → Option ℕ
rposition p [] = none
rposition p (l ∷ ls) = elim (rposition p ls) [
  | some i ↦ some (suc i)
  | none ↦ if p l then some 0 else none
]

abbrev is_blank : Line → Bool
is_blank l = is_empty (trim l)

abbrev all_blank : List Line → Bool
all_blank [] = true
all_blank (l ∷ ls) = is_blank l && all_blank ls

abbrev framed : List Line → ℕ → ℕ → Option ℕ → Option ℕ
framed lines start bottom none = none
framed lines start bottom (some top) =
    if ltb top start && ltb start bottom && all_blank (drop (top + 1) (take start lines))
    then some (bottom - 1)
    else none

-- The last row of a composer between two rules, whose prompt stands at `start`.
unfoldable pub framed_end : List Line → ℕ → Option ℕ
framed_end lines start = elim (rposition is_input_rule lines) [
  | none ↦ none
  | some bottom ↦ framed lines start bottom (rposition is_input_rule (take bottom lines))
]

-- The rows behind the prompt continue its line.
unfoldable pub continues : (ℕ → Bool) → ℕ → List Line → Bool
continues wrapped row [] = true
continues wrapped row (l ∷ ls) =
    (wrapped (row - 1) || (not (is_blank l) && is_some (strip_prefix (b' ' ∷ b' ' ∷ []) l)))
    && continues wrapped (row + 1) ls

abbrev head_or : List Line → Line
head_or [] = []
head_or (l ∷ ls) = l

abbrev tail : List Line → List Line
tail [] = []
tail (l ∷ ls) = ls

abbrev or_empty : Option Line → Line
or_empty none = []
or_empty (some l) = l

-- The loop over the blank rows of a frame: the row of the text and its line, or `none` where
-- something stands left of the input. Its rounds are at most the rows up to the frame's end.
unfoldable pub skip_blank : ℕ → List Line → List Line → ℕ → Line → Option (ℕ × Line)
skip_blank zero lefts rights row first = some (row, first)
skip_blank (suc rounds) lefts rights row first =
    let rest = skip_blank rounds lefts (tail rights) (row + 1) (head_or rights) in
    if is_blank first
    then if is_blank (or_empty (get_elem? lefts (row + 1))) then rest else none
    else some (row, first)

abbrev spaces : ℕ → List ℕ
spaces zero = []
spaces (suc n) = b' ' ∷ spaces n

module _ (V : Vt100) (R : ScreenReader V) where
  -- The text as the emulator shows it behind a prompt: its first line and all of it, normalised.
  unfoldable pub expected_input : ℕ → ℕ → ℕ → Text → Line × Line
  expected_input rows cols input_col text =
      let prompt =
        Screen.process V (spaces input_col) (Screen.with_scrollback V cols (max rows 2) 0) in
      let screen = V.screen (Screen.process V (process_special_keys text) prompt).parser in
      (head_or (R.rows input_col (cols - input_col) screen), normalized_input (R.text screen))

  -- Whether the text found from `row` on is the expected one.
  abbrev same_text : V.Screen → ℕ → ℕ → ℕ → ℕ → Bool → Line → Line → Option (ℕ × Line) → Bool
  same_text screen start input_col end cols is_framed pre expected none = false
  same_text screen start input_col end cols is_framed pre expected (some (row, first)) =
      if not (is_some (strip_prefix pre (trim_start_matches is_whitespace first)))
      then false
      else if leb (length expected) 40 || (not is_framed && ltb start end)
      then text_eq (normalized_input (R.text_between row input_col end cols screen)) expected
      else true

  unfoldable pub compare_input : V.Screen → ℕ → ℕ → ℕ → Option ℕ → Text → Bool
  compare_input screen start input_col end framed_to text =
      let (rows, cols) = R.size screen in
      let (first_line, expected) = expected_input rows cols input_col text in
      let pre = take 40 (trim first_line) in
      if ltb (length pre) (min (length expected) 16) || is_empty pre
      then false
      else (let rights = drop start (R.rows input_col (cols - input_col) screen) in
          let rounds = if is_some framed_to then end - start else 0 in
          same_text screen start input_col end cols (is_some framed_to) pre expected
            (skip_blank rounds (R.rows 0 input_col screen) (tail rights) start (head_or rights)))

  abbrev unframed : V.Screen → List Line → ℕ → ℕ → Text → Bool
  unframed screen lines start input_col text =
      let (row, col) = V.cursor_position screen in
      if ltb row start || R.hide_cursor screen || (start == row && ltb col input_col)
      then false
      else if not (
          continues (λ r. R.row_wrapped r screen) (start + 1)
            (drop (start + 1) (take (row + 1) lines)))
      then false
      else compare_input screen start input_col row none text

  abbrev from_prompt : V.Screen → List Line → Text → ℕ → Option ℕ → Bool
  from_prompt screen lines text start none = false
  from_prompt screen lines text start (some input_col) =
      if leb (R.size screen).1 input_col then false else elim (framed_end lines start) [
        | some end ↦ compare_input screen start input_col end (some end) text
        | none ↦ unframed screen lines start input_col text
      ]

  -- The screen that is seen, not the part scrolled back to.
  unfoldable pub screen_matches : V.Screen → Text → Bool
  screen_matches shown text =
      let screen = R.live shown in
      let lines = R.rows 0 (R.size screen).1 screen in
      if R.synchronized_output shown
      then false
      else elim (rposition (λ l. is_some (prompt_input_column l)) lines) [
        | none ↦ false
        | some start ↦
            from_prompt screen lines text start
              (prompt_input_column (or_empty (get_elem? lines start)))
      ]

  unfoldable pub input_matches : (B : PtyBackend) → PtySession V B → Text → Bool
  input_matches B s text = screen_matches (V.screen s.screen.parser) text
