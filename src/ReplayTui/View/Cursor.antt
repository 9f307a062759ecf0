-- ===== src/ReplayTui/View/Cursor.antt =====
-- What the keys and ticks of the view of a recorded session do to a cursor over its events.
use tttt.Base.{
  ℕ, ◌+◌, ◌-◌, Bool, true, false, Option, none, some, List, [], ◌∷◌, length, take, get_elem?, min,
  ltb, ◌==◌, if◌then◌else◌,
}
use tttt.Log.{LogEvent}
use tttt.Log.Replay
use tttt.Log.Replay.Seek
use tttt.Log.Replay.Passed.{passed}
use tttt.ReplayTui.{SessionListEntry}
use tttt.ReplayTui.View.{
  Player, ReplayViewState, Key, down_key, up_key, enter, quit_key, space, next_key, previous_key,
  forward_key, back_key, home_key, end_key, plus, minus, other_key, view_key, tick_view,
  saturating_add,
}

-- A key or a tick, with the clock.
pub data Input : Type 0 where
  pressed : ℕ → Key → Input
  ticked : ℕ → Input

module _ (P : Player) where
  unfoldable pub after : List Input → Option (ReplayViewState P) → Option (ReplayViewState P)
  after is none = none
  after [] (some v) = some v
  after (pressed now key ∷ is) (some v) = after is (view_key P now key v)
  after (ticked now ∷ is) (some v) = after is (some (tick_view P now v))

  -- What a view comes down to: no recording and no screen.
  pub record Cursor : Type 0 where
    pub index : ℕ
    pub playing : Bool
    pub pos_ms : ℕ
    pub last_tick : ℕ
    pub speed : P.Speed

  -- What is seen of a view: index, playing, position and screen.
  abbrev pub Picture : Type 0
  Picture = ℕ × Bool × ℕ × P.surroundings.vt100.Parser

  abbrev pub picture_of : Option (ReplayViewState P) → Option Picture
  picture_of none = none
  picture_of (some v) = some (v.replay.current_index, v.playing, v.playback_pos_ms, v.replay.screen)

  abbrev pub first_cursor : ℕ → Cursor
  first_cursor start = record {
    index = 0;
    playing = false;
    pos_ms = 0;
    last_tick = start;
    speed = P.normal;
  }

  module _ (events : List LogEvent) where
    abbrev pub time_at : ℕ → ℕ
    time_at i = if i == 0 then 0 else Replay.timestamp P.surroundings (get_elem? events (i - 1))

    -- The time of the first event.
    abbrev pub start_time : ℕ
    start_time = Replay.timestamp P.surroundings (get_elem? events 0)

    -- Stopped at an index, at the time of the event in front of it.
    abbrev pub paused_at : ℕ → Cursor → Cursor
    paused_at i c = record c { index = i; playing = false; pos_ms = time_at i - start_time }

    unfoldable pub cursor_key : ℕ → Key → Cursor → Option Cursor
    cursor_key now space c = some (
        if c.playing
        then record c { playing = false }
        else record c { playing = true; last_tick = now })
    cursor_key now next_key c = some (paused_at (min (c.index + 1) (length events)) c)
    cursor_key now previous_key c = some (paused_at (c.index - 1) c)
    cursor_key now forward_key c = some (paused_at (min (c.index + 10) (length events)) c)
    cursor_key now back_key c = some (paused_at (c.index - 10) c)
    cursor_key now home_key c = some (record c { index = 0; playing = false; pos_ms = 0 })
    cursor_key now end_key c = some (paused_at (length events) c)
    cursor_key now plus c = some (record c { speed = P.faster c.speed })
    cursor_key now minus c = some (record c { speed = P.slower c.speed })
    cursor_key now quit_key c = none
    cursor_key now down_key c = some c
    cursor_key now up_key c = some c
    cursor_key now enter c = some c
    cursor_key now other_key c = some c

    -- A tick while playing shows the events up to the position, and stops behind the last.
    unfoldable pub cursor_tick : ℕ → Cursor → Cursor
    cursor_tick now c =
        let pos = saturating_add c.pos_ms (P.advance_ms (now - c.last_tick) c.speed) in
        let i = passed (saturating_add start_time pos) events in
        if c.playing
        then record c { index = i; playing = ltb i (length events); pos_ms = pos; last_tick = now }
        else c

    unfoldable pub cursor_after : List Input → Option Cursor → Option Cursor
    cursor_after is none = none
    cursor_after [] (some c) = some c
    cursor_after (pressed now key ∷ is) (some c) = cursor_after is (cursor_key now key c)
    cursor_after (ticked now ∷ is) (some c) = cursor_after is (some (cursor_tick now c))

    -- What a cursor shows: the output of the events before its index.
    abbrev pub picture_at : SessionListEntry → Option Cursor → Option Picture
    picture_at entry none = none
    picture_at entry (some c) = some (
      c.index,
      c.playing,
      c.pos_ms,
      Seek.play P.surroundings (take c.index events)
          (Replay.fresh P.surroundings entry.cols entry.rows),
    )
