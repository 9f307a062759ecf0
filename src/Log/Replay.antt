-- ===== src/Log/Replay.antt =====
-- `SessionReplay` of crates/tttt-log/src/replay.rs, over the terminal emulator and over what the
-- JSON parser makes of a meta event: the `cols` and `rows` of a message of type "resize", where
-- they are numbers.
pub mod Seek
pub mod Position
pub mod Passed
use tttt.Base.{
  ℕ, zero, suc, ◌+◌, ◌-◌, ◌%◌, Bool, true, false, ◌&&◌, Option, none, some, List, [], ◌∷◌, ltb, leb,
  ◌==◌, if◌then◌else◌, length, get_elem?, min,
}
use tttt.Base.Text.{Text}
use tttt.Base.Decimal.{u16_bound}
use tttt.Pty.Screen.{Vt100}
use tttt.Log.{Direction, input, output, meta, LogEvent}

pub record Surroundings : Type 1 where
  pub vt100 : Vt100
  pub resize_of : List ℕ → Option (Option ℕ × Option ℕ)

pub record SessionReplay (X : Surroundings) : Type 0 where
  pub events : List LogEvent
  pub screen : X.vt100.Parser
  pub current_index : ℕ
  pub cols : ℕ
  pub rows : ℕ

module _ (X : Surroundings) where
  unfoldable pub fresh : ℕ → ℕ → X.vt100.Parser
  fresh cols rows = X.vt100.new rows cols 0

  unfoldable pub new : List LogEvent → ℕ → ℕ → SessionReplay X
  new events cols rows = record {
    events = events;
    screen = fresh cols rows;
    current_index = 0;
    cols = cols;
    rows = rows;
  }

  -- `unwrap_or(self.cols as u64) as u16`
  abbrev dimension : Option ℕ → ℕ → ℕ
  dimension none current = current % u16_bound
  dimension (some n) current = n % u16_bound

  abbrev resized : Option (Option ℕ × Option ℕ) → SessionReplay X → SessionReplay X
  resized none r = r
  resized (some (cols, rows)) r =
      let cols' = dimension cols r.cols in
      let rows' = dimension rows r.rows in
      record r { cols = cols'; rows = rows'; screen = X.vt100.set_size rows' cols' r.screen }

  unfoldable pub apply : Direction → List ℕ → SessionReplay X → SessionReplay X
  apply output bytes r = record r { screen = X.vt100.process bytes r.screen }
  apply meta bytes r = resized (X.resize_of bytes) r
  apply input bytes r = r

  abbrev advanced : SessionReplay X → SessionReplay X
  advanced r = record r { current_index = r.current_index + 1 }

  unfoldable pub step_forward : SessionReplay X → Bool × SessionReplay X
  step_forward r = elim (get_elem? r.events r.current_index) [
    | none ↦ (false, r)
    | some e ↦ (true, advanced (apply e.direction e.bytes r))
  ]

  -- `while self.current_index < target { self.step_forward(); }`, whose rounds are the
  -- difference.
  unfoldable pub step_times : ℕ → SessionReplay X → SessionReplay X
  step_times zero r = r
  step_times (suc n) r = step_times n (step_forward r).1

  -- A new parser of the current size, before the first event.
  unfoldable pub rewind : SessionReplay X → SessionReplay X
  rewind r = record r { screen = fresh r.cols r.rows; current_index = 0 }

  unfoldable pub seek_to_index : ℕ → SessionReplay X → SessionReplay X
  seek_to_index idx r =
      let target = min idx (length r.events) in
      let start = if ltb target r.current_index then rewind r else r in
      step_times (target - start.current_index) start

  abbrev pub timestamp : Option LogEvent → ℕ
  timestamp none = 0
  timestamp (some e) = e.timestamp_ms

  unfoldable pub current_timestamp : SessionReplay X → ℕ
  current_timestamp r =
      if r.current_index == 0 then 0 else timestamp (get_elem? r.events (r.current_index - 1))

  abbrev pub is_up_to : ℕ → Option LogEvent → Bool
  is_up_to ts none = false
  is_up_to ts (some e) = leb e.timestamp_ms ts

  -- `while` the next event is at most at `ts`; a round passes an event, so that the number of
  -- events is fuel enough.
  unfoldable pub step_until : ℕ → ℕ → SessionReplay X → SessionReplay X
  step_until zero ts r = r
  step_until (suc fuel) ts r =
      let rest = step_until fuel ts (step_forward r).1 in
      if is_up_to ts (get_elem? r.events r.current_index) then rest else r

  unfoldable pub seek_to_timestamp : ℕ → SessionReplay X → SessionReplay X
  seek_to_timestamp ts r =
      let start = if ltb 0 r.current_index && ltb ts (current_timestamp r) then rewind r else r in
      step_until (length r.events) ts start
