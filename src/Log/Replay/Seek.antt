-- ===== src/Log/Replay/Seek.antt =====
-- Seeking in a replay: where it ends, and what the screen then shows.
use tttt.Base.{
  ℕ, zero, suc, ◌+◌, ◌≤◌, ◌<◌, ◌≡◌, refl, ◌&&◌, none, some, List, [], ◌∷◌, ltb, length, get_elem?,
  min, arith, ap, sym, ◌∙◌, Option-cases, Bool-cases, inl, inr, All, take,
}
use mathlib.Core.Path.{subst, ap₂}
use tttt.Log.{Direction, input, output, meta, LogEvent}
use tttt.Log.Replay
use tttt.Log.Replay.{Surroundings, SessionReplay}

module _ (X : Surroundings) where
  abbrev played : Direction → List ℕ → X.vt100.Parser → X.vt100.Parser
  played output bytes p = X.vt100.process bytes p
  played meta bytes p = p
  played input bytes p = p

  -- The parser after the output of the events.
  unfoldable pub play : List LogEvent → X.vt100.Parser → X.vt100.Parser
  play [] p = p
  play (e ∷ es) p = play es (played e.direction e.bytes p)

  abbrev KeepsSize : Direction → List ℕ → Type 0
  KeepsSize meta bytes = X.resize_of bytes ≡ none
  KeepsSize output bytes = Unit
  KeepsSize input bytes = Unit

  -- No event resizes the terminal.
  abbrev pub HasFixedSize : List LogEvent → Type 0
  HasFixedSize = All (λ e. KeepsSize e.direction e.bytes)

  play-take-suc :
      (es : List LogEvent) (i : ℕ) (e : LogEvent) (p : X.vt100.Parser)
      → get_elem? es i ≡ some e
      → play (take (suc i) es) p ≡ played e.direction e.bytes (play (take i es) p)
  unfolding play
  play-take-suc [] i e p h = absurd (ground arith)
  play-take-suc (d ∷ es) zero e p h =
      let same : d ≡ e = ground arith in ap (λ (x : LogEvent). played x.direction x.bytes p) same
  play-take-suc (d ∷ es) (suc i) e p h = play-take-suc es i e (played d.direction d.bytes p) h

  All-get_elem? :
      (es : List LogEvent) (i : ℕ) (e : LogEvent)
      → HasFixedSize es
      → get_elem? es i ≡ some e
      → KeepsSize e.direction e.bytes
  All-get_elem? [] i e h k = absurd (ground arith)
  All-get_elem? (d ∷ es) zero e h k =
      let same : d ≡ e = ground arith in
      subst (λ (x : LogEvent). KeepsSize x.direction x.bytes) same h.0
  All-get_elem? (d ∷ es) (suc i) e h k = All-get_elem? es i e h.1 k

  get_elem?-length :
      (es : List LogEvent) (i : ℕ) (e : LogEvent) → get_elem? es i ≡ some e → i < length es
  get_elem?-length [] i e h = absurd (ground arith)
  get_elem?-length (d ∷ es) zero e h = omega arith
  get_elem?-length (d ∷ es) (suc i) e h = omega (arith, get_elem?-length es i e h)

  -- The replay of `events` at a size: its screen shows the output of the events passed so far.
  pub record Shows (events : List LogEvent) (cols rows : ℕ) (r : SessionReplay X) : Type 0 where
    pub same_events : r.events ≡ events
    pub same_cols : r.cols ≡ cols
    pub same_rows : r.rows ≡ rows
    pub within : r.current_index ≤ length events
    pub screen : r.screen ≡ play (take r.current_index events) (Replay.fresh X cols rows)

  apply-fixed :
      (d : Direction) (bytes : List ℕ) (r : SessionReplay X)
      → KeepsSize d bytes
      → Replay.apply X d bytes r ≡ record r { screen = played d bytes r.screen }
  unfolding Replay.apply
  apply-fixed output bytes r h = refl
  apply-fixed meta bytes r h = rw h
  apply-fixed input bytes r h = refl

  module _ (events : List LogEvent) (cols rows : ℕ) (fixed : HasFixedSize events) where
    step-Shows :
        (r : SessionReplay X)
        → Shows events cols rows r
        → Shows events cols rows (Replay.step_forward X r).1
    unfolding Replay.step_forward
    step-Shows r h = elim (Option-cases (get_elem? r.events r.current_index)) [
      | inl over ↦ rw (over, Replay.step_forward) h
      | inr (e, there) ↦
          let here : get_elem? events r.current_index ≡ some e =
            subst (λ l. get_elem? l r.current_index ≡ some e) h.same_events there in
          let next_index : suc r.current_index ≡ r.current_index + 1 = omega arith in
          rw (there, Replay.step_forward)
            (rw
              (apply-fixed e.direction e.bytes r
                (All-get_elem? events r.current_index e fixed here))
              (record {
                same_events = h.same_events;
                same_cols = h.same_cols;
                same_rows = h.same_rows;
                within = omega (arith, get_elem?-length events r.current_index e here);
                screen =
                    ap (played e.direction e.bytes) h.screen
                    ∙ sym (play-take-suc events r.current_index e (Replay.fresh X cols rows) here)
                    ∙ ap (λ n. play (take n events) (Replay.fresh X cols rows)) next_index;
              }))
    ]

    step_times-Shows :
        (n : ℕ) (r : SessionReplay X)
        → Shows events cols rows r
        → Shows events cols rows (Replay.step_times X n r)
    unfolding Replay.step_times
    step_times-Shows zero r h = h
    step_times-Shows (suc n) r h = step_times-Shows n (Replay.step_forward X r).1 (step-Shows r h)

    rewind-Shows :
        (r : SessionReplay X)
        → Shows events cols rows r
        → Shows events cols rows (Replay.rewind X r)
    unfolding Replay.rewind
    rewind-Shows r h = record {
      same_events = h.same_events;
      same_cols = h.same_cols;
      same_rows = h.same_rows;
      within = omega arith;
      screen = unfold play in ap₂ (Replay.fresh X) h.same_cols h.same_rows;
    }

    pub seek_to_index-Shows :
        (idx : ℕ) (r : SessionReplay X)
        → Shows events cols rows r
        → Shows events cols rows (Replay.seek_to_index X idx r)
    unfolding Replay.seek_to_index
    seek_to_index-Shows idx r h =
        elim (Bool-cases (ltb (min idx (length r.events)) r.current_index)) [
          | inl back ↦ rw back (step_times-Shows _ (Replay.rewind X r) (rewind-Shows r h))
          | inr ahead ↦ rw ahead (step_times-Shows _ r h)
        ]

    step_until-Shows :
        (fuel ts : ℕ) (r : SessionReplay X)
        → Shows events cols rows r
        → Shows events cols rows (Replay.step_until X fuel ts r)
    unfolding Replay.step_until
    step_until-Shows zero ts r h = h
    step_until-Shows (suc fuel) ts r h =
        let later = step_until-Shows fuel ts (Replay.step_forward X r).1 (step-Shows r h) in
        elim (Bool-cases (Replay.is_up_to X ts (get_elem? r.events r.current_index))) [
          | inl on ↦ rw on later
          | inr off ↦ rw off h
        ]

    pub seek_to_timestamp-Shows :
        (ts : ℕ) (r : SessionReplay X)
        → Shows events cols rows r
        → Shows events cols rows (Replay.seek_to_timestamp X ts r)
    unfolding Replay.seek_to_timestamp
    seek_to_timestamp-Shows ts r h =
        elim (Bool-cases (ltb 0 r.current_index && ltb ts (Replay.current_timestamp X r))) [
          | inl back ↦ rw back (step_until-Shows _ ts (Replay.rewind X r) (rewind-Shows r h))
          | inr ahead ↦ rw ahead (step_until-Shows _ ts r h)
        ]

  pub data Move : SessionReplay X → SessionReplay X → Type 0 where
    stepped : (r : SessionReplay X) → Move r (Replay.step_forward X r).1
    sought : (idx : ℕ) (r : SessionReplay X) → Move r (Replay.seek_to_index X idx r)
    sought_time : (ts : ℕ) (r : SessionReplay X) → Move r (Replay.seek_to_timestamp X ts r)

  pub data Moves (r : SessionReplay X) : SessionReplay X → Type 0 where
    start : Moves r r
    next : {t u : SessionReplay X} → Moves r t → Move t u → Moves r u

  Move-Shows :
      (events : List LogEvent) (cols rows : ℕ) {r t : SessionReplay X}
      → HasFixedSize events
      → Move r t
      → Shows events cols rows r
      → Shows events cols rows t
  Move-Shows events cols rows fixed (stepped r) h = step-Shows events cols rows fixed r h
  Move-Shows events cols rows fixed (sought idx r) h =
      seek_to_index-Shows events cols rows fixed idx r h
  Move-Shows events cols rows fixed (sought_time ts r) h =
      seek_to_timestamp-Shows events cols rows fixed ts r h

  Moves-keep :
      (events : List LogEvent) (cols rows : ℕ) {r t : SessionReplay X}
      → HasFixedSize events
      → Moves r t
      → Shows events cols rows r
      → Shows events cols rows t
  Moves-keep events cols rows fixed start h = h
  Moves-keep events cols rows fixed (next ms m) h =
      Move-Shows events cols rows fixed m (Moves-keep events cols rows fixed ms h)

  -- Where no event resizes the terminal: after any steps and seeks, forward or back, the screen is
  -- that of a new parser that has read the output of exactly the events before the current index.
  pub Moves-Shows :
      (events : List LogEvent) (cols rows : ℕ) {r : SessionReplay X}
      → HasFixedSize events
      → Moves (Replay.new X events cols rows) r
      → Shows events cols rows r
  Moves-Shows events cols rows fixed ms = Moves-keep events cols rows fixed ms (
      unfold Replay.new play in
      record {
        same_events = refl;
        same_cols = refl;
        same_rows = refl;
        within = omega arith;
        screen = refl;
      })
