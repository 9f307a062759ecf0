-- ===== src/Tui/Input.antt =====
-- `CtrlCTracker`, `parse_sgr_mouse` and `InputParser` of crates/tttt-tui/src/input.rs. The time at
-- the k-th reading of the clock is `clock k`, in nanoseconds, for a clock that is a parameter.
pub mod Mouse
pub mod Transducer
pub mod Buffering
use tttt.Base.{
  ℕ, zero, suc, ◌+◌, ◌-◌, ◌*◌, ◌%◌, ◌/◌, Bool, true, false, not, ◌&&◌, ◌||◌, Option, none, some,
  List, [], ◌∷◌, ◌++◌, ◌⊎◌, inl, inr, ltb, leb, ◌==◌, if◌then◌else◌, length, drop, is_empty, any,
  min, max,
}
use tttt.Base.Text.{Text}
use Mouse.{MouseButton, MouseModifiers, MouseEvent, parse_sgr_mouse, is_terminator}

-- The last four presses in a ring.
pub record CtrlCTracker : Type 0 where
  pub slot0 : Option ℕ
  pub slot1 : Option ℕ
  pub slot2 : Option ℕ
  pub slot3 : Option ℕ
  pub head : ℕ

abbrev pub no_presses : CtrlCTracker
no_presses = record { slot0 = none; slot1 = none; slot2 = none; slot3 = none; head = 0 }

abbrev write_slot : ℕ → ℕ → CtrlCTracker → CtrlCTracker
write_slot i now t =
    if i == 0
    then record t { slot0 = some now }
    else if i == 1
    then record t { slot1 = some now }
    else if i == 2
    then record t { slot2 = some now }
    else record t { slot3 = some now }

abbrev pub two_seconds : ℕ
two_seconds = 2_000_000_000

abbrev within_window : Option ℕ → Option ℕ → Option ℕ → Option ℕ → Bool
within_window (some a) (some b) (some c) (some d) =
    leb (max (max a b) (max c d) - min (min a b) (min c d)) two_seconds
within_window _ b c d = false

unfoldable pub record_press : ℕ → CtrlCTracker → Bool × CtrlCTracker
record_press now t =
    let t' = write_slot t.head now t in
    (within_window t'.slot0 t'.slot1 t'.slot2 t'.slot3, record t' { head = (t.head + 1) % 4 })

pub record DisplayConfig : Type 0 where
  pub sidebar_width : ℕ
  pub prefix_key : ℕ
  pub status_line : Bool

abbrev pub default_config : DisplayConfig
default_config = record { sidebar_width = 30; prefix_key = 0x1c; status_line = true }

pub data InputEvent : Type 0 where
  pass_through : List ℕ → InputEvent
  switch_terminal : ℕ → InputEvent
  next_terminal prev_terminal show_help toggle_web prefix_escape detach : InputEvent
  create_terminal reload : InputEvent
  mouse : MouseEvent → InputEvent
  show_ctrl_c_hint redraw dump_diagnostics toggle_sticky_active : InputEvent

pub record InputParser : Type 0 where
  pub config : DisplayConfig
  pub prefix_armed : Bool
  pub mouse_buf : List ℕ
  pub ctrl_c_tracker : CtrlCTracker
  -- how often the clock has been read
  pub readings : ℕ

unfoldable pub new : DisplayConfig → InputParser
new config = record {
  config = config;
  prefix_armed = false;
  mouse_buf = [];
  ctrl_c_tracker = no_presses;
  readings = 0;
}

unfoldable pub cancel_prefix : InputParser → InputParser
cancel_prefix p = record p { prefix_armed = false }

-- The letter in either case.
abbrev letter : ℕ → ℕ → Bool
letter lower c = c == lower || c == lower - 32

-- The commands behind the prefix key, in the order of the match.
unfoldable pub command : ℕ → Option InputEvent
command c =
    if leb b'0' c && leb c b'9'
    then some (switch_terminal (c - b'0'))
    else if letter b'n' c
    then some next_terminal
    else if letter b'p' c
    then some prev_terminal
    else if c == b'?'
    then some show_help
    else if letter b'd' c
    then some detach
    else if letter b'c' c
    then some create_terminal
    else if letter b'r' c
    then some reload
    else if letter b'l' c
    then some redraw
    else if letter b'i' c
    then some dump_diagnostics
    else if c == b'.'
    then some toggle_sticky_active
    else if letter b'w' c
    then some toggle_web
    else none

-- `if !passthrough.is_empty() { events.push(PassThrough(take(passthrough))) }`
abbrev pub flush : List InputEvent → List ℕ → List InputEvent
flush events [] = events
flush events (c ∷ cs) = events ++ pass_through (c ∷ cs) ∷ []

-- The local variables of `process_raw_bytes` beside the parser.
pub record Scan : Type 0 where
  pub parser : InputParser
  pub events : List InputEvent
  pub passthrough : List ℕ

abbrev flush_and_push : InputEvent → Scan → Scan
flush_and_push e s = record s { events = flush s.events s.passthrough ++ e ∷ []; passthrough = [] }

-- The byte after the prefix key.
abbrev armed_byte : ℕ → Option InputEvent → Scan → Scan
armed_byte c (some e) s = flush_and_push e s
armed_byte c none s =
    if c == s.parser.config.prefix_key
    then record s { passthrough = s.passthrough ++ c ∷ [] }
    else s

abbrev after_press : Bool × CtrlCTracker → Scan → Scan
after_press (fired, t) s =
    let p = record (s.parser) { ctrl_c_tracker = t; readings = s.parser.readings + 1 } in
    if fired
    then record {
      parser = p;
      events = flush s.events s.passthrough ++ pass_through (3 ∷ []) ∷ show_ctrl_c_hint ∷ [];
      passthrough = [];
    }
    else record s { parser = p; passthrough = s.passthrough ++ 3 ∷ [] }

abbrev pub Chunk : Type 0
Chunk = InputEvent ⊎ List ℕ

module _ (clock : ℕ → ℕ) where
  unfoldable pub scan_byte : ℕ → Scan → Scan
  scan_byte c s =
      if s.parser.prefix_armed
      then armed_byte c (command c)
          (record s { parser = record (s.parser) { prefix_armed = false } })
      else if c == s.parser.config.prefix_key
      then record s { parser = record (s.parser) { prefix_armed = true } }
      else if c == 3
      then after_press (record_press (clock s.parser.readings) s.parser.ctrl_c_tracker) s
      else record s { passthrough = s.passthrough ++ c ∷ [] }

  unfoldable pub scan_bytes : List ℕ → Scan → Scan
  scan_bytes [] s = s
  scan_bytes (c ∷ cs) s = scan_bytes cs (scan_byte c s)

  unfoldable pub process_raw_bytes : List ℕ → InputParser → List InputEvent × InputParser
  process_raw_bytes bytes p =
      let s = scan_bytes bytes (record { parser = p; events = []; passthrough = [] }) in
      (flush s.events s.passthrough, s.parser)

  -- The second loop of `process`.
  unfoldable pub process_chunks : List Chunk → InputParser → List InputEvent × InputParser
  process_chunks [] p = ([], p)
  process_chunks (inl e ∷ chunks) p = let (events, p') = process_chunks chunks p in (e ∷ events, p')
  process_chunks (inr bytes ∷ chunks) p =
      let (events, p') = process_raw_bytes bytes p in
      let (later, p'') = process_chunks chunks p' in (events ++ later, p'')

abbrev pub flush_raw : List ℕ → List Chunk → List Chunk
flush_raw [] chunks = chunks
flush_raw (c ∷ cs) chunks = inr (c ∷ cs) ∷ chunks

-- The bytes `\x1b[<` at the front.
unfoldable pub starts_mouse : List ℕ → Bool
starts_mouse (a ∷ b ∷ c ∷ rest) = a == 0x1b && b == b'[' && c == b'<'
starts_mouse _ = false

-- The first loop of `process`: the chunks, and what goes to the mouse buffer. Each round takes a
-- byte at least, so the number of bytes is fuel enough.
unfoldable pub split_chunks : ℕ → List ℕ → List ℕ → List Chunk × List ℕ
split_chunks zero raw bytes = (flush_raw raw [], [])
split_chunks (suc fuel) raw [] = (flush_raw raw [], [])
split_chunks (suc fuel) raw (c ∷ cs) =
    let plain = split_chunks fuel (raw ++ c ∷ []) cs in
    if starts_mouse (c ∷ cs)
    then elim (parse_sgr_mouse (c ∷ cs)) [
      | some (event, consumed) ↦
          (let (chunks, left) = split_chunks fuel [] (drop consumed (c ∷ cs)) in
            (flush_raw raw (inl (mouse event) ∷ chunks), left))
      | none ↦ if any is_terminator (drop 3 (c ∷ cs)) then plain else (flush_raw raw [], c ∷ cs)
    ]
    else plain

module _ (clock : ℕ → ℕ) where
  unfoldable pub process : List ℕ → InputParser → List InputEvent × InputParser
  process input p =
      let bytes = p.mouse_buf ++ input in
      let (chunks, left) = split_chunks (length bytes) [] bytes in
      process_chunks clock chunks (record p { mouse_buf = left })
