-- ===== src/Log/Replay/Position.antt =====
-- Where a seek ends, whatever the events are.
use tttt.Base.{
  ℕ, zero, suc, ◌+◌, ◌-◌, ◌≤◌, ◌<◌, ◌≡◌, refl, false, ◌&&◌, none, some, List, [], ◌∷◌, ltb, length,
  get_elem?, min, arith, ap, ◌∙◌, Option-cases, Bool-cases, inl, inr,
}
use tttt.Log.{Direction, input, output, meta, LogEvent}
use tttt.Log.Replay
use tttt.Log.Replay.{Surroundings, SessionReplay}

pub get_elem?-none : (l : List LogEvent) (i : ℕ) → get_elem? l i ≡ none → length l ≤ i
get_elem?-none [] i h = omega arith
get_elem?-none (e ∷ l) zero h = absurd (ground arith)
get_elem?-none (e ∷ l) (suc i) h = omega (arith, get_elem?-none l i h)

get_elem?-ge : (l : List LogEvent) (i : ℕ) → length l ≤ i → get_elem? l i ≡ none
get_elem?-ge [] i h = refl
get_elem?-ge (e ∷ l) zero h = absurd (omega arith)
get_elem?-ge (e ∷ l) (suc i) h = get_elem?-ge l i (omega arith)

pub get_elem?-length :
    (l : List LogEvent) (i : ℕ) (e : LogEvent) → get_elem? l i ≡ some e → i < length l
get_elem?-length [] i e h = absurd (ground arith)
get_elem?-length (d ∷ l) zero e h = omega arith
get_elem?-length (d ∷ l) (suc i) e h = omega (arith, get_elem?-length l i e h)

module _ (X : Surroundings) where
  apply_keeps :
      (d : Direction) (bytes : List ℕ) (r : SessionReplay X)
      → ((Replay.apply X d bytes r).events ≡ r.events)
        × ((Replay.apply X d bytes r).current_index ≡ r.current_index)
  unfolding Replay.apply
  apply_keeps output bytes r = (refl, refl)
  apply_keeps input bytes r = (refl, refl)
  apply_keeps meta bytes r = elim (Option-cases (X.resize_of bytes)) [
    | inl other ↦ rw other (refl, refl)
    | inr (size, resize) ↦ rw resize (refl, refl)
  ]

  -- A step goes to the next event, unless there is none.
  pub step_position :
      (r : SessionReplay X)
      → ((Replay.step_forward X r).1.events ≡ r.events)
        × (r.current_index < length r.events
            → (Replay.step_forward X r).1.current_index ≡ r.current_index + 1)
  step_position r = elim (Option-cases (get_elem? r.events r.current_index)) [
    | inl over ↦ (
      unfold Replay.step_forward in ground arith,
      λ h. absurd (omega (arith, get_elem?-none r.events r.current_index over)),
    )
    | inr (e, there) ↦
        unfold Replay.step_forward in
        (
          ground (arith, apply_keeps e.direction e.bytes r),
          λ h. ground (arith, apply_keeps e.direction e.bytes r),
        )
  ]

  step_times_position :
      (n : ℕ) (r : SessionReplay X)
      → r.current_index + n ≤ length r.events
      → (Replay.step_times X n r).current_index ≡ r.current_index + n
  unfolding Replay.step_times
  step_times_position zero r h = omega arith
  step_times_position (suc n) r h =
      let step = step_position r in
      let s = (Replay.step_forward X r).1 in
      let moved = step.1 (omega arith) in
      omega (arith, moved, step_times_position n s (omega (arith, moved, ap length step.0)))

  -- From an index within the events, a seek ends at the index asked for, or behind the last event
  -- if that comes first.
  pub seek_to_index_position :
      (idx : ℕ) (r : SessionReplay X)
      → r.current_index ≤ length r.events
      → (Replay.seek_to_index X idx r).current_index ≡ min idx (length r.events)
  unfolding Replay.seek_to_index Replay.rewind
  seek_to_index_position idx r h =
      let target = min idx (length r.events) in
      elim (Bool-cases (ltb target r.current_index)) [
        | inl back ↦ rw back (
            step_times_position (target - 0) (Replay.rewind X r)
              (unfold Replay.rewind in omega arith)
            ∙ unfold Replay.rewind in omega arith)
        | inr ahead ↦
            rw ahead
              (step_times_position (target - r.current_index) r (ground arith) ∙ ground arith)
      ]

  -- The loop of a seek by time ends in front of the first later event, or behind the last.
  step_until_stops :
      (fuel ts : ℕ) (r : SessionReplay X)
      → length r.events ≤ r.current_index + fuel
      → let t = Replay.step_until X fuel ts r in
        Replay.is_up_to X ts (get_elem? t.events t.current_index) ≡ false
  unfolding Replay.step_until
  step_until_stops zero ts r h = rw (get_elem?-ge r.events r.current_index (omega arith))
  step_until_stops (suc fuel) ts r h =
      let s = (Replay.step_forward X r).1 in
      elim (Bool-cases (Replay.is_up_to X ts (get_elem? r.events r.current_index))) [
        | inr off ↦ rw off off
        | inl on ↦ elim (Option-cases (get_elem? r.events r.current_index)) [
          | inl over ↦ absurd (ground arith)
          | inr (e, there) ↦
              let step = step_position r in
              let inside : r.current_index < length r.events =
                get_elem?-length r.events r.current_index e there in
              let moved = step.1 inside in
              rw on (step_until_stops fuel ts s (omega (arith, moved, ap length step.0)))
        ]
      ]

  -- A seek by time ends in front of an event later than the time, or behind the last event.
  pub seek_to_timestamp_stops :
      (ts : ℕ) (r : SessionReplay X)
      → let t = Replay.seek_to_timestamp X ts r in
        Replay.is_up_to X ts (get_elem? t.events t.current_index) ≡ false
  unfolding Replay.seek_to_timestamp
  seek_to_timestamp_stops ts r =
      elim (Bool-cases (ltb 0 r.current_index && ltb ts (Replay.current_timestamp X r))) [
        | inl back ↦ rw back (
            step_until_stops (length r.events) ts (Replay.rewind X r)
              (unfold Replay.rewind in omega arith))
        | inr ahead ↦ rw ahead (step_until_stops (length r.events) ts r (omega arith))
      ]
