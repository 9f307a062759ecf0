-- ===== src/Log/Replay/Passed.antt =====
-- Seeking by time in a recording whose events stand in the order of their times.
use tttt.Base.{
  ℕ, zero, suc, ◌-◌, ◌≤◌, ◌<◌, ◌≡◌, refl, true, false, ◌&&◌, some, List, [], ◌∷◌, ltb, leb, ◌==◌,
  if◌then◌else◌, length, take, get_elem?, arith, ap, sym, ◌∙◌, Option-cases, Bool-cases, inl, inr,
  All,
}
use mathlib.Core.Path.{subst}
use tttt.Log.{LogEvent}
use tttt.Log.Replay
use tttt.Log.Replay.{Surroundings, SessionReplay}
use tttt.Log.Replay.Position.{
  get_elem?-none, get_elem?-length, step_position, seek_to_timestamp_stops,
}

-- No event is earlier than one in front of it.
abbrev pub IsChronological : List LogEvent → Type 0
IsChronological [] = Unit
IsChronological (e ∷ es) =
    All (λ (d : LogEvent). e.timestamp_ms ≤ d.timestamp_ms) es × IsChronological es

-- The events at the beginning that are not later than a time.
unfoldable pub passed : ℕ → List LogEvent → ℕ
passed ts [] = 0
passed ts (e ∷ es) = let rest = passed ts es in if leb e.timestamp_ms ts then suc rest else 0

abbrev AllPassed : ℕ → ℕ → List LogEvent → Type 0
AllPassed ts i es = All (λ (e : LogEvent). e.timestamp_ms ≤ ts) (take i es)

module _ (X : Surroundings) where
  -- Where a time is between events, those in front of it are counted.
  passed_unique :
      (ts i : ℕ) (es : List LogEvent)
      → AllPassed ts i es
      → i ≤ length es
      → Replay.is_up_to X ts (get_elem? es i) ≡ false
      → passed ts es ≡ i
  unfolding passed
  passed_unique ts zero [] h le stop = refl
  passed_unique ts (suc i) [] h le stop = absurd (omega arith)
  passed_unique ts zero (e ∷ es) h le stop = rw stop refl
  passed_unique ts (suc i) (e ∷ es) h le stop =
      ground (arith, h.0, passed_unique ts i es h.1 (omega arith) stop)

  AllPassed-suc :
      (ts i : ℕ) (es : List LogEvent)
      → AllPassed ts i es
      → Replay.is_up_to X ts (get_elem? es i) ≡ true
      → AllPassed ts (suc i) es
  AllPassed-suc ts i [] h on = tt
  AllPassed-suc ts zero (e ∷ es) h on = (ground arith, tt)
  AllPassed-suc ts (suc i) (e ∷ es) h on = (h.0, AllPassed-suc ts i es h.1 on)

  All-at :
      (ts i : ℕ) (es : List LogEvent) (e : LogEvent)
      → All (λ (d : LogEvent). ts ≤ d.timestamp_ms) es
      → get_elem? es i ≡ some e
      → ts ≤ e.timestamp_ms
  All-at ts i [] e h there = absurd (ground arith)
  All-at ts zero (d ∷ es) e h there = ground (arith, h.0)
  All-at ts (suc i) (d ∷ es) e h there = All-at ts i es e h.1 there

  AllPassed-before :
      (ts i : ℕ) (es : List LogEvent) (e : LogEvent)
      → IsChronological es
      → get_elem? es i ≡ some e
      → e.timestamp_ms ≤ ts
      → AllPassed ts (suc i) es
  AllPassed-before ts i [] e h there le = tt
  AllPassed-before ts zero (d ∷ es) e h there le = (ground arith, tt)
  AllPassed-before ts (suc i) (d ∷ es) e h there le = (
    omega (arith, All-at d.timestamp_ms i es e h.0 there, le),
    AllPassed-before ts i es e h.1 there le,
  )

  up_to-inside :
      (ts : ℕ) (es : List LogEvent) (i : ℕ)
      → Replay.is_up_to X ts (get_elem? es i) ≡ true
      → i < length es
  up_to-inside ts es i on = elim (Option-cases (get_elem? es i)) [
    | inl over ↦ absurd (ground arith)
    | inr (e, there) ↦ get_elem?-length es i e there
  ]

  -- The events of a replay in front of its index are not later than a time.
  record HasPassed (ts : ℕ) (events : List LogEvent) (r : SessionReplay X) : Type 0 where
    pub same_events : r.events ≡ events
    pub within : r.current_index ≤ length events
    pub all_passed : AllPassed ts r.current_index events

  step-HasPassed :
      (ts : ℕ) (events : List LogEvent) (r : SessionReplay X)
      → Replay.is_up_to X ts (get_elem? r.events r.current_index) ≡ true
      → HasPassed ts events r
      → HasPassed ts events (Replay.step_forward X r).1
  step-HasPassed ts events r on h =
      let there : Replay.is_up_to X ts (get_elem? events r.current_index) ≡ true =
        subst (λ l. Replay.is_up_to X ts (get_elem? l r.current_index) ≡ true) h.same_events on in
      let inside : r.current_index < length r.events =
        up_to-inside ts r.events r.current_index on in
      let step = step_position X r in
      let moved : (Replay.step_forward X r).1.current_index ≡ suc r.current_index =
        omega (arith, step.1 inside) in
      record {
        same_events = step.0 ∙ h.same_events;
        within = omega (arith, moved, inside, ap length h.same_events);
        all_passed = rw moved (AllPassed-suc ts r.current_index events h.all_passed there);
      }

  step_until-HasPassed :
      (fuel ts : ℕ) (events : List LogEvent) (r : SessionReplay X)
      → HasPassed ts events r
      → HasPassed ts events (Replay.step_until X fuel ts r)
  unfolding Replay.step_until
  step_until-HasPassed zero ts events r h = h
  step_until-HasPassed (suc fuel) ts events r h =
      elim (Bool-cases (Replay.is_up_to X ts (get_elem? r.events r.current_index))) [
        | inl on ↦
            let s = (Replay.step_forward X r).1 in
            rw on (step_until-HasPassed fuel ts events s (step-HasPassed ts events r on h))
        | inr off ↦ rw off h
      ]

  rewind-HasPassed : (ts : ℕ) (r : SessionReplay X) → HasPassed ts r.events (Replay.rewind X r)
  unfolding Replay.rewind
  rewind-HasPassed ts r = record { same_events = refl; within = omega arith; all_passed = tt }

  current-HasPassed :
      (ts i : ℕ) (es : List LogEvent)
      → IsChronological es
      → i ≤ length es
      → (if i == 0 then 0 else Replay.timestamp X (get_elem? es (i - 1))) ≤ ts
      → AllPassed ts i es
  current-HasPassed ts zero es h le past = tt
  current-HasPassed ts (suc i) es h le past = elim (Option-cases (get_elem? es i)) [
    | inl over ↦ absurd (omega (arith, get_elem?-none es i over))
    | inr (e, there) ↦
        let last : Replay.timestamp X (get_elem? es i) ≤ ts = ground arith in
        AllPassed-before ts i es e h there (subst (λ o. Replay.timestamp X o ≤ ts) there last)
  ]

  seek_to_timestamp-HasPassed :
      (ts : ℕ) (r : SessionReplay X)
      → IsChronological r.events
      → r.current_index ≤ length r.events
      → HasPassed ts r.events (Replay.seek_to_timestamp X ts r)
  unfolding Replay.seek_to_timestamp Replay.current_timestamp
  seek_to_timestamp-HasPassed ts r sorted le =
      elim (Bool-cases (ltb 0 r.current_index && ltb ts (Replay.current_timestamp X r))) [
        | inl back ↦
            rw back (step_until-HasPassed _ ts r.events (Replay.rewind X r) (rewind-HasPassed ts r))
        | inr ahead ↦ rw ahead (
            step_until-HasPassed _ ts r.events r (record {
              same_events = refl;
              within = le;
              all_passed = current-HasPassed ts r.current_index r.events sorted le (ground arith);
            }))
      ]

  -- Where the events stand in the order of their times, a seek by time ends behind exactly the
  -- events that are not later.
  pub seek_to_timestamp-passed :
      (ts : ℕ) (r : SessionReplay X)
      → IsChronological r.events
      → r.current_index ≤ length r.events
      → (Replay.seek_to_timestamp X ts r).current_index ≡ passed ts r.events
  seek_to_timestamp-passed ts r sorted le =
      let t = Replay.seek_to_timestamp X ts r in
      let h = seek_to_timestamp-HasPassed ts r sorted le in
      sym (
        passed_unique ts t.current_index r.events h.all_passed h.within (
          subst (λ l. Replay.is_up_to X ts (get_elem? l t.current_index) ≡ false) h.same_events
            (seek_to_timestamp_stops X ts r)))
