-- ===== src/ReplayTui/Rows.antt =====
-- The rows of the sessions among the separators.
use tttt.Base.{
  ℕ, suc, ◌+◌, ◌-◌, ◌≤◌, ◌<◌, ◌≡◌, refl, true, false, List, [], ◌∷◌, ltb, leb, ◌==◌, if◌then◌else◌,
  length, All, arith, ap, sym, ◌∙◌, Bool-cases, inl, inr,
}
use tttt.Base.Map.{All_map}
use tttt.ReplayTui
use tttt.ReplayTui.{
  SessionListEntry, separators_from, compute_separator_positions, visual_from, contains,
  count_below, visual_gap_threshold_ms,
}

-- Rising, from a bound on.
abbrev pub IsRising : ℕ → List ℕ → Type 0
IsRising low [] = Unit
IsRising low (s ∷ rest) = (low ≤ s) × IsRising (suc s) rest

-- How many are at most a number.
unfoldable pub rank : List ℕ → ℕ → ℕ
rank [] k = 0
rank (s ∷ rest) k = let later = rank rest k in if leb s k then suc later else later

IsRising-weaken :
    (low high : ℕ) (seps : List ℕ) → low ≤ high → IsRising high seps → IsRising low seps
IsRising-weaken low high [] h k = tt
IsRising-weaken low high (s ∷ rest) h k = (omega (arith, h, k.0), k.1)

pub rank_low : (k : ℕ) (seps : List ℕ) → IsRising (suc k) seps → rank seps k ≡ 0
unfolding rank
rank_low k [] h = refl
rank_low k (s ∷ rest) h =
    let above : leb s k ≡ false = ground (arith, h.0) in
    rw above (rank_low k rest (IsRising-weaken (suc k) (suc s) rest (omega (arith, h.0)) h.1))

-- A row above all separators is none of them.
contains-low :
    (c low v : ℕ) (seps : List ℕ)
    → IsRising low seps
    → v < low + c
    → contains v (visual_from c seps) ≡ false
unfolding contains visual_from
contains-low c low v [] h k = refl
contains-low c low v (s ∷ rest) h k =
    let other : (s + c == v) ≡ false = ground (arith, h.0, k) in
    rw other (contains-low (suc c) (suc s) v rest h.1 (omega (arith, h.0, k)))

count_below-low :
    (c low v : ℕ) (seps : List ℕ)
    → IsRising low seps
    → v ≤ low + c
    → count_below v (visual_from c seps) ≡ 0
unfolding count_below visual_from
count_below-low c low v [] h k = refl
count_below-low c low v (s ∷ rest) h k =
    let above : ltb (s + c) v ≡ false = ground (arith, h.0, k) in
    rw above (count_below-low (suc c) (suc s) v rest h.1 (omega (arith, h.0, k)))

pub rank_passed : (s k : ℕ) (rest : List ℕ) → leb s k ≡ true → rank (s ∷ rest) k ≡ suc (rank rest k)
unfolding rank
rank_passed s k rest passed = rw passed refl

pub rank_ahead :
    (s k : ℕ) (rest : List ℕ)
    → leb s k ≡ false
    → IsRising (suc s) rest
    → (rank (s ∷ rest) k ≡ 0) × (rank rest k ≡ 0)
unfolding rank
rank_ahead s k rest ahead h =
    let later = rank_low k rest (IsRising-weaken (suc k) (suc s) rest (ground arith) h) in
    (rw ahead later, later)

-- The row of a session is no separator, and the separators above it are those up to the session.
pub contains-row :
    (c low k : ℕ) (seps : List ℕ)
    → IsRising low seps
    → contains (k + c + rank seps k) (visual_from c seps) ≡ false
unfolding contains visual_from
contains-row c low k [] h = refl
contains-row c low k (s ∷ rest) h = elim (Bool-cases (leb s k)) [
  | inl passed ↦
      let r = rank_passed s k rest passed in
      let other : (s + c == k + c + rank (s ∷ rest) k) ≡ false = ground arith in
      let eq : k + c + rank (s ∷ rest) k ≡ k + suc c + rank rest k = omega (arith, r) in
      rw other (
        ap (λ v. contains v (visual_from (suc c) rest)) eq
        ∙ contains-row (suc c) (suc s) k rest h.1)
  | inr ahead ↦
      let r = rank_ahead s k rest ahead h.1 in
      let other : (s + c == k + c + rank (s ∷ rest) k) ≡ false = ground arith in
      rw other (contains-low (suc c) (suc s) (k + c + rank (s ∷ rest) k) rest h.1 (ground arith))
]

pub count_below-row :
    (c low k : ℕ) (seps : List ℕ)
    → IsRising low seps
    → count_below (k + c + rank seps k) (visual_from c seps) ≡ rank seps k
unfolding count_below visual_from
count_below-row c low k [] h = unfold rank in refl
count_below-row c low k (s ∷ rest) h = elim (Bool-cases (leb s k)) [
  | inl passed ↦
      let r = rank_passed s k rest passed in
      let above : ltb (s + c) (k + c + rank (s ∷ rest) k) ≡ true = ground arith in
      let eq : k + c + rank (s ∷ rest) k ≡ k + suc c + rank rest k = omega (arith, r) in
      rw above (
        ap (λ v. suc (count_below v (visual_from (suc c) rest))) eq
        ∙ ap suc (count_below-row (suc c) (suc s) k rest h.1)
        ∙ sym r)
  | inr ahead ↦
      let r = rank_ahead s k rest ahead h.1 in
      let below : ltb (s + c) (k + c + rank (s ∷ rest) k) ≡ false = ground arith in
      rw below (
        count_below-low (suc c) (suc s) (k + c + rank (s ∷ rest) k) rest h.1 (ground arith)
        ∙ sym r.0)
]

contains-below : (low k : ℕ) (seps : List ℕ) → IsRising low seps → k < low → contains k seps ≡ false
unfolding contains
contains-below low k [] h below = refl
contains-below low k (s ∷ rest) h below =
    let other : (s == k) ≡ false = ground (arith, h.0, below) in
    rw other (contains-below (suc s) k rest h.1 (omega (arith, h.0, below)))

pub rank-suc :
    (low k : ℕ) (seps : List ℕ)
    → IsRising low seps
    → rank seps (suc k) ≡ (if contains (suc k) seps then suc (rank seps k) else rank seps k)
unfolding contains
rank-suc low k [] h = unfold rank in refl
rank-suc low k (s ∷ rest) h = elim (Bool-cases (leb s k)) [
  | inl passed ↦
      let still : leb s (suc k) ≡ true = ground arith in
      let other : (s == suc k) ≡ false = ground arith in
      let r = rank_passed s k rest passed in
      let r' = rank_passed s (suc k) rest still in
      rw other (ground (arith, r, r', rank-suc (suc s) k rest h.1))
  | inr ahead ↦
      let r = rank_ahead s k rest ahead h.1 in
      elim (Bool-cases (s == suc k)) [
        | inl same ↦
            let reached : leb s (suc k) ≡ true = ground arith in
            let next =
              rank_low (suc k) rest
                (IsRising-weaken (suc (suc k)) (suc s) rest (ground arith) h.1) in
            rw same (omega (arith, r.0, rank_passed s (suc k) rest reached, next))
        | inr other ↦
            let beyond : leb s (suc k) ≡ false = ground arith in
            let gone = contains-below (suc s) (suc k) rest h.1 (ground arith) in
            rw (other, gone) (omega (arith, r.0, (rank_ahead s (suc k) rest beyond h.1).0))
      ]
]

-- The row behind a session's is a separator exactly if one stands before the next session.
pub contains-behind :
    (c low k : ℕ) (seps : List ℕ)
    → IsRising low seps
    → contains (suc (k + c + rank seps k)) (visual_from c seps) ≡ contains (suc k) seps
unfolding contains visual_from
contains-behind c low k [] h = refl
contains-behind c low k (s ∷ rest) h = elim (Bool-cases (leb s k)) [
  | inl passed ↦
      let r = rank_passed s k rest passed in
      let other : (s + c == suc (k + c + rank (s ∷ rest) k)) ≡ false = ground arith in
      let away : (s == suc k) ≡ false = ground arith in
      let eq : k + c + rank (s ∷ rest) k ≡ k + suc c + rank rest k = omega (arith, r) in
      rw (other, away)
        (ap (λ v. contains (suc v) (visual_from (suc c) rest)) eq
          ∙ contains-behind (suc c) (suc s) k rest h.1)
  | inr ahead ↦
      let r = rank_ahead s k rest ahead h.1 in
      elim (Bool-cases (s == suc k)) [
        | inl same ↦
            let here : (s + c == suc (k + c + rank (s ∷ rest) k)) ≡ true = ground arith in
            rw (here, same) refl
        | inr other ↦
            let there : (s + c == suc (k + c + rank (s ∷ rest) k)) ≡ false = ground arith in
            rw (there, other)
              (contains-low (suc c) (suc s) (suc (k + c + rank (s ∷ rest) k)) rest h.1
                  (ground arith)
                ∙ sym (contains-below (suc s) (suc k) rest h.1 (ground arith)))
      ]
]

pub rank_bound : (k : ℕ) (seps : List ℕ) → rank seps k ≤ length seps
unfolding rank
rank_bound k [] = omega arith
rank_bound k (s ∷ rest) = ground (arith, rank_bound k rest)

pub rank_all : (low k : ℕ) (seps : List ℕ) → All (λ s. s ≤ k) seps → rank seps k ≡ length seps
unfolding rank
rank_all low k [] h = refl
rank_all low k (s ∷ rest) h =
    let passed : leb s k ≡ true = ground (arith, h.0) in
    rw passed (ap suc (rank_all low k rest h.1))

separators_from-IsRising :
    (i : ℕ) (e : SessionListEntry) (es : List SessionListEntry)
    → IsRising i (separators_from i e es) × All (λ s. s < i + length es) (separators_from i e es)
unfolding separators_from
separators_from-IsRising i e [] = (tt, tt)
separators_from-IsRising i e (d ∷ es) =
    let later = separators_from-IsRising (suc i) d es in
    let eq : suc i + length es ≡ i + suc (length es) = omega arith in
    let bounded : All (λ s. s < i + suc (length es)) (separators_from (suc i) d es) =
      rw (← eq) later.1 in
    elim (Bool-cases (
      ltb visual_gap_threshold_ms
        (e.started_at_ms - ReplayTui.or_else d.started_at_ms d.ended_at_ms))) [
          | inl gap ↦ rw gap ((omega arith, later.0), (omega arith, bounded))
          | inr close ↦ rw close (
            IsRising-weaken i (suc i) (separators_from (suc i) d es) (omega arith) later.0,
            bounded,
          )
        ]

-- The separators of a list rise from 1 on and stand before sessions of the list.
pub separators-IsRising :
    (e : SessionListEntry) (es : List SessionListEntry)
    → IsRising 1 (compute_separator_positions (e ∷ es))
      × All (λ s. s ≤ length es) (compute_separator_positions (e ∷ es))
unfolding compute_separator_positions
separators-IsRising e es =
    let h = separators_from-IsRising 1 e es in
    (h.0, All_map (λ s. s < 1 + length es) (λ s. s ≤ length es) _ (λ s lt. omega (arith, lt)) h.1)
