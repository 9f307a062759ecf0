-- ===== src/ReplayTui/View.antt =====
-- `ReplayApp` of src/replay_tui.rs: the keys of the list and of the view of a recorded session, and
-- its playback. What a key event means is a `Key`; the clock is a number of nanoseconds.
pub mod Cursor
pub mod Keys
use tttt.Base.{
  ℕ, zero, suc, ◌+◌, ◌-◌, ◌^◌, Bool, true, false, not, Option, none, some, List, [], ◌∷◌, ltb, leb,
  if◌then◌else◌, length, get_elem?, Result, ok, err, min,
}
use tttt.Base.Text.{Text}
use tttt.Log.{LogEvent}
use tttt.Log.Replay
use tttt.Log.Replay.{Surroundings, SessionReplay}
use tttt.ReplayTui.{
  SessionListEntry, SessionListState, LoadStrategy, new_list, move_down, move_up,
  selected_session_idx,
}

pub data Key : Type 0 where
  down_key up_key enter quit_key space next_key previous_key forward_key back_key : Key
  home_key end_key plus minus other_key : Key

-- The speed: `*2` up to 16, `/2` down to an eighth, and the milliseconds that a time is worth, cut
-- to a `u64`. `open_events` is the query of a strategy.
pub record Player : Type 1 where
  pub surroundings : Surroundings
  pub Speed : Type 0
  pub normal : Speed
  pub faster : Speed → Speed
  pub slower : Speed → Speed
  pub advance_ms : ℕ → Speed → ℕ
  pub open_events : SessionListEntry → Result Text (List LogEvent)

abbrev pub saturating_add : ℕ → ℕ → ℕ
saturating_add a b = min (a + b) (2 ^ 64 - 1)

abbrev pub first_timestamp : List LogEvent → ℕ
first_timestamp [] = 0
first_timestamp (e ∷ es) = e.timestamp_ms

module _ (P : Player) where
  pub record ReplayViewState : Type 0 where
    pub replay : SessionReplay P.surroundings
    pub playing : Bool
    pub speed : P.Speed
    pub last_tick : ℕ
    pub base_timestamp : ℕ
    pub playback_pos_ms : ℕ

  pub data View : Type 0 where
    session_list : SessionListState → View
    replay_view : ReplayViewState → View

  pub record ReplayApp : Type 0 where
    pub sessions : List SessionListEntry
    pub view : View
    pub should_quit : Bool

  unfoldable pub opened : ℕ → SessionListEntry → List LogEvent → ReplayViewState
  opened now entry events = record {
    replay = Replay.new P.surroundings events entry.cols entry.rows;
    playing = false;
    speed = P.normal;
    last_tick = now;
    base_timestamp = first_timestamp events;
    playback_pos_ms = 0;
  }

  -- Stopped at an index, with the position of playback that belongs to it.
  unfoldable pub stopped_at : ℕ → ReplayViewState → ReplayViewState
  stopped_at index v =
      let replay = Replay.seek_to_index P.surroundings index v.replay in
      record v {
        playing = false;
        replay = replay;
        playback_pos_ms = Replay.current_timestamp P.surroundings replay - v.base_timestamp;
      }

  -- A key in the view; `none` where it leads back to the list.
  unfoldable pub view_key : ℕ → Key → ReplayViewState → Option ReplayViewState
  view_key now space v = some (
      if v.playing
      then record v { playing = false }
      else record v { playing = true; last_tick = now })
  view_key now next_key v = some (stopped_at (v.replay.current_index + 1) v)
  view_key now previous_key v = some (stopped_at (v.replay.current_index - 1) v)
  view_key now forward_key v = some (stopped_at (saturating_add v.replay.current_index 10) v)
  view_key now back_key v = some (stopped_at (v.replay.current_index - 10) v)
  view_key now home_key v = some (record v {
    playing = false;
    replay = Replay.seek_to_index P.surroundings 0 v.replay;
    playback_pos_ms = 0;
  })
  view_key now end_key v = some (stopped_at (length v.replay.events) v)
  view_key now plus v = some (record v { speed = P.faster v.speed })
  view_key now minus v = some (record v { speed = P.slower v.speed })
  view_key now quit_key v = none
  view_key now _ v = some v

  abbrev loaded :
      ℕ
      → SessionListEntry
      → ReplayApp
      → Result Text (List LogEvent)
      → Result Text (Unit {0}) × ReplayApp
  loaded now entry a (err e) = (err e, a)
  loaded now entry a (ok events) =
      (ok tt, record a { view = replay_view (opened now entry events) })

  abbrev entered : ℕ → ReplayApp → Option SessionListEntry → Result Text (Unit {0}) × ReplayApp
  entered now a none = (ok tt, a)
  entered now a (some entry) = loaded now entry a (P.open_events entry)

  abbrev entry_at : List SessionListEntry → Option ℕ → Option SessionListEntry
  entry_at sessions none = none
  entry_at sessions (some idx) = get_elem? sessions idx

  unfoldable pub list_key :
      ℕ → Key → SessionListState → ReplayApp → Result Text (Unit {0}) × ReplayApp
  list_key now down_key s a =
      (ok tt, record a { view = session_list (move_down (length a.sessions) s) })
  list_key now up_key s a = (ok tt, record a { view = session_list (move_up s) })
  list_key now enter s a = entered now a (entry_at a.sessions (selected_session_idx s))
  list_key now quit_key s a = (ok tt, record a { should_quit = true })
  list_key now _ s a = (ok tt, a)

  abbrev shown_view : ReplayApp → Option ReplayViewState → ReplayApp
  shown_view a none = record a { view = session_list (new_list a.sessions) }
  shown_view a (some v) = record a { view = replay_view v }

  abbrev key_in : ℕ → Key → View → ReplayApp → Result Text (Unit {0}) × ReplayApp
  key_in now key (session_list s) a = list_key now key s a
  key_in now key (replay_view v) a = (ok tt, shown_view a (view_key now key v))

  unfoldable pub handle_key : ℕ → Key → ReplayApp → Result Text (Unit {0}) × ReplayApp
  handle_key now key a = key_in now key a.view a

  -- A tick of a view.
  unfoldable pub tick_view : ℕ → ReplayViewState → ReplayViewState
  tick_view now v =
      let pos = saturating_add v.playback_pos_ms (P.advance_ms (now - v.last_tick) v.speed) in
      let replay =
        Replay.seek_to_timestamp P.surroundings (saturating_add v.base_timestamp pos) v.replay in
      if v.playing
      then record v {
        last_tick = now;
        playback_pos_ms = pos;
        replay = replay;
        playing = not (leb (length replay.events) replay.current_index);
      }
      else v

  abbrev ticked : ℕ → View → View
  ticked now (session_list s) = session_list s
  ticked now (replay_view v) = replay_view (tick_view now v)

  unfoldable pub tick : ℕ → ReplayApp → ReplayApp
  tick now a = record a { view = ticked now a.view }
