-- ===== src/ReplayTui/View/Keys.antt =====
-- Where keys and ticks lead the view of a recorded session: where they lead a cursor over its events.
use tttt.Base.{
  ℕ, ◌+◌, ◌-◌, ◌<◌, ◌^◌, ◌≡◌, refl, Bool, true, false, not, Option, none, some, List, [], ◌∷◌,
  length, get_elem?, min, ltb, leb, if◌then◌else◌, arith, ap, sym, ◌∙◌,
}
use mathlib.Core.Path.{subst, ap₂}
use tttt.Log.{LogEvent}
use tttt.Log.Replay
use tttt.Log.Replay.{SessionReplay}
use tttt.Log.Replay.Seek
use tttt.Log.Replay.Seek.{HasFixedSize, Shows, Moves-Shows}
use tttt.Log.Replay.Position.{seek_to_index_position}
use tttt.Log.Replay.Passed.{IsChronological, passed, seek_to_timestamp-passed}
use tttt.ReplayTui.{SessionListEntry}
use tttt.ReplayTui.View.{
  Player, ReplayViewState, Key, down_key, up_key, enter, quit_key, space, next_key, previous_key,
  forward_key, back_key, home_key, end_key, plus, minus, other_key, stopped_at, opened, view_key,
  tick_view, saturating_add, first_timestamp,
}
use tttt.ReplayTui.View.Cursor.{
  Input, pressed, ticked, after, Cursor, picture_of, picture_at, time_at, start_time, paused_at,
  cursor_key, cursor_tick, cursor_after, first_cursor,
}

not-leb : (n i : ℕ) → not (leb n i) ≡ ltb i n
not-leb n i = ground arith

first_timestamp-first :
    (P : Player) (es : List LogEvent)
    → first_timestamp es ≡ Replay.timestamp P.surroundings (get_elem? es 0)
first_timestamp-first P [] = refl
first_timestamp-first P (e ∷ es) = refl

module _ (P : Player) (start : ℕ) (entry : SessionListEntry) (events : List LogEvent) where
  record IsAt (v : ReplayViewState P) (c : Cursor P) : Type 0 where
    pub shows : Shows P.surroundings events entry.cols entry.rows v.replay
    pub base : v.base_timestamp ≡ start_time P events
    pub index : v.replay.current_index ≡ c.index
    pub playing : v.playing ≡ c.playing
    pub pos_ms : v.playback_pos_ms ≡ c.pos_ms
    pub last_tick : v.last_tick ≡ c.last_tick
    pub speed : v.speed ≡ c.speed

  abbrev AreAt : Option (ReplayViewState P) → Option (Cursor P) → Type 0
  AreAt none none = Unit
  AreAt (some v) (some c) = IsAt v c
  AreAt none (some c) = ⊥
  AreAt (some v) none = ⊥

  current-time_at :
      (r : SessionReplay P.surroundings) (i : ℕ)
      → r.events ≡ events
      → r.current_index ≡ i
      → Replay.current_timestamp P.surroundings r ≡ time_at P events i
  unfolding Replay.current_timestamp
  current-time_at r i same here = rw (same, here) refl

  if-IsAt :
      (b d : Bool) (v w : ReplayViewState P) (c e : Cursor P)
      → b ≡ d
      → IsAt v c
      → IsAt w e
      → IsAt (if b then v else w) (if d then c else e)
  if-IsAt true true v w c e same h k = h
  if-IsAt false false v w c e same h k = k
  if-IsAt true false v w c e same h k = absurd (ground arith)
  if-IsAt false true v w c e same h k = absurd (ground arith)

  seek-index :
      (idx i : ℕ) (v : ReplayViewState P) (c : Cursor P)
      → min idx (length events) ≡ i
      → IsAt v c
      → (Replay.seek_to_index P.surroundings idx v.replay).current_index ≡ i
  seek-index idx i v c target h =
      seek_to_index_position P.surroundings idx v.replay
        (omega (arith, h.shows.within, ap length h.shows.same_events))
      ∙ ap (λ l. min idx (length l)) h.shows.same_events
      ∙ target

  module _ (fixed : HasFixedSize P.surroundings events) where
    seek-Shows :
        (idx : ℕ) (v : ReplayViewState P) (c : Cursor P)
        → IsAt v c
        → Shows P.surroundings events entry.cols entry.rows
            (Replay.seek_to_index P.surroundings idx v.replay)
    seek-Shows idx v c h =
        Seek.seek_to_index-Shows P.surroundings events entry.cols entry.rows fixed idx v.replay
          h.shows

    stopped_at-IsAt :
        (idx i : ℕ) (v : ReplayViewState P) (c : Cursor P)
        → min idx (length events) ≡ i
        → IsAt v c
        → IsAt (stopped_at P idx v) (paused_at P events i c)
    unfolding stopped_at
    stopped_at-IsAt idx i v c target h =
        let shows = seek-Shows idx v c h in
        let here = seek-index idx i v c target h in
        record {
          shows = shows;
          base = h.base;
          index = here;
          playing = refl;
          pos_ms = ap₂ ◌-◌ (current-time_at _ i shows.same_events here) h.base;
          last_tick = h.last_tick;
          speed = h.speed;
        }

    view_key-AreAt :
        (now : ℕ) (key : Key) (v : ReplayViewState P) (c : Cursor P)
        → length events < 2 ^ 64
        → IsAt v c
        → AreAt (view_key P now key v) (cursor_key P events now key c)
    unfolding view_key cursor_key
    view_key-AreAt now space v c small h =
        if-IsAt v.playing c.playing _ _ _ _ h.playing
          (record {
            shows = h.shows;
            base = h.base;
            index = h.index;
            playing = refl;
            pos_ms = h.pos_ms;
            last_tick = h.last_tick;
            speed = h.speed;
          })
          (record {
            shows = h.shows;
            base = h.base;
            index = h.index;
            playing = refl;
            pos_ms = h.pos_ms;
            last_tick = refl;
            speed = h.speed;
          })
    view_key-AreAt now next_key v c small h =
        stopped_at-IsAt _ _ v c (ap (λ i. min (i + 1) (length events)) h.index) h
    view_key-AreAt now previous_key v c small h =
        stopped_at-IsAt _ _ v c (omega (arith, h.index, h.shows.within)) h
    view_key-AreAt now forward_key v c small h =
        stopped_at-IsAt _ _ v c (omega (arith, h.index, small)) h
    view_key-AreAt now back_key v c small h =
        stopped_at-IsAt _ _ v c (omega (arith, h.index, h.shows.within)) h
    view_key-AreAt now home_key v c small h = record {
      shows = seek-Shows 0 v c h;
      base = h.base;
      index = seek-index 0 0 v c (omega arith) h;
      playing = refl;
      pos_ms = refl;
      last_tick = h.last_tick;
      speed = h.speed;
    }
    view_key-AreAt now end_key v c small h =
        stopped_at-IsAt _ _ v c (omega (arith, ap length h.shows.same_events)) h
    view_key-AreAt now plus v c small h = record {
      shows = h.shows;
      base = h.base;
      index = h.index;
      playing = h.playing;
      pos_ms = h.pos_ms;
      last_tick = h.last_tick;
      speed = ap P.faster h.speed;
    }
    view_key-AreAt now minus v c small h = record {
      shows = h.shows;
      base = h.base;
      index = h.index;
      playing = h.playing;
      pos_ms = h.pos_ms;
      last_tick = h.last_tick;
      speed = ap P.slower h.speed;
    }
    view_key-AreAt now quit_key v c small h = tt
    view_key-AreAt now down_key v c small h = h
    view_key-AreAt now up_key v c small h = h
    view_key-AreAt now enter v c small h = h
    view_key-AreAt now other_key v c small h = h

    tick_view-IsAt :
        (now : ℕ) (v : ReplayViewState P) (c : Cursor P)
        → IsChronological events
        → IsAt v c
        → IsAt (tick_view P now v) (cursor_tick P events now c)
    unfolding tick_view cursor_tick
    tick_view-IsAt now v c sorted h =
        let pos : ℕ = saturating_add v.playback_pos_ms (P.advance_ms (now - v.last_tick) v.speed) in
        let pos' : ℕ = saturating_add c.pos_ms (P.advance_ms (now - c.last_tick) c.speed) in
        let ts : ℕ = saturating_add v.base_timestamp pos in
        let ts' : ℕ = saturating_add (start_time P events) pos' in
        let same_pos : pos ≡ pos' =
          ap₂ saturating_add h.pos_ms (ap₂ P.advance_ms (ap (λ t. now - t) h.last_tick) h.speed) in
        let same_ts : ts ≡ ts' = ap₂ saturating_add h.base same_pos in
        let shows =
          Seek.seek_to_timestamp-Shows P.surroundings events entry.cols entry.rows fixed ts v.replay
            h.shows in
        let here =
          seek_to_timestamp-passed P.surroundings ts v.replay
            (subst IsChronological (sym h.shows.same_events) sorted)
            (omega (arith, h.shows.within, ap length h.shows.same_events))
          ∙ ap₂ passed same_ts h.shows.same_events in
        if-IsAt v.playing c.playing _ _ _ _ h.playing
          (record {
            shows = shows;
            base = h.base;
            index = here;
            playing = ap₂ (λ n i. not (leb n i)) (ap length shows.same_events) here ∙ not-leb _ _;
            pos_ms = same_pos;
            last_tick = refl;
            speed = h.speed;
          })
          h

    after-AreAt :
        (is : List Input) (o : Option (ReplayViewState P)) (p : Option (Cursor P))
        → length events < 2 ^ 64
        → IsChronological events
        → AreAt o p
        → AreAt (after P is o) (cursor_after P events is p)
    unfolding after cursor_after
    after-AreAt [] none none small sorted h = tt
    after-AreAt (i ∷ is) none none small sorted h = tt
    after-AreAt is none (some c) small sorted h = absurd h
    after-AreAt is (some v) none small sorted h = absurd h
    after-AreAt [] (some v) (some c) small sorted h = h
    after-AreAt (pressed now key ∷ is) (some v) (some c) small sorted h =
        after-AreAt is (view_key P now key v) (cursor_key P events now key c) small sorted
          (view_key-AreAt now key v c small h)
    after-AreAt (ticked now ∷ is) (some v) (some c) small sorted h =
        after-AreAt is (some (tick_view P now v)) (some (cursor_tick P events now c)) small sorted
          (tick_view-IsAt now v c sorted h)

    picture_of-picture_at :
        (o : Option (ReplayViewState P)) (p : Option (Cursor P))
        → AreAt o p
        → picture_of P o ≡ picture_at P events entry p
    picture_of-picture_at none none h = refl
    picture_of-picture_at none (some c) h = absurd h
    picture_of-picture_at (some v) none h = absurd h
    picture_of-picture_at (some v) (some c) h = ground (arith, h.index, h.shows.screen)

  -- Where no event resizes the terminal, the events stand in the order of their times and there are
  -- fewer than 2^64: after any keys and ticks the view is open exactly if the cursor is, at the
  -- same index and position, playing or not like it, and shows the output of exactly the events
  -- before that index.
  pub after_follows_cursor :
      (is : List Input)
      → HasFixedSize P.surroundings events
      → IsChronological events
      → length events < 2 ^ 64
      → picture_of P (after P is (some (opened P start entry events)))
        ≡ picture_at P events entry (cursor_after P events is (some (first_cursor P start)))
  unfolding opened
  after_follows_cursor is fixed sorted small = picture_of-picture_at fixed _ _ (
      after-AreAt fixed is (some (opened P start entry events)) (some (first_cursor P start)) small
        sorted
        (record {
          shows = Moves-Shows P.surroundings events entry.cols entry.rows fixed Seek.start;
          base = first_timestamp-first P events;
          index = unfold Replay.new in refl;
          playing = refl;
          pos_ms = refl;
          last_tick = refl;
          speed = refl;
        }))
