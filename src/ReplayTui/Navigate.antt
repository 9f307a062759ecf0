-- ===== src/ReplayTui/Navigate.antt =====
-- The keys of the list walk over the sessions.
use tttt.Base.{
  ℕ, zero, suc, ◌+◌, ◌-◌, ◌≤◌, ◌<◌, ◌≡◌, refl, true, false, ◌&&◌, some, List, [], ◌∷◌, ltb,
  if◌then◌else◌, length, All, min, arith, ap, sym, ◌∙◌, Bool-cases, inl, inr,
}
use tttt.ReplayTui
use tttt.ReplayTui.{
  SessionListEntry, SessionListState, compute_separator_positions, visual_from,
  separator_visual_indices, contains, count_below, visual_to_session_idx, selected_session_idx,
  move_down, move_up, skip_down, skip_up, total_rows, new_list,
}
use tttt.ReplayTui.Rows.{
  IsRising, rank, rank_low, rank-suc, rank_all, rank_bound, contains-row, count_below-row,
  contains-behind, separators-IsRising,
}

-- The row of a session.
unfoldable pub row : List ℕ → ℕ → ℕ
row seps k = k + 0 + rank seps k

-- The list with the separators and a session selected.
abbrev shown : List ℕ → ℕ → SessionListState
shown seps k = record { selected = some (row seps k); separator_indices = visual_from 0 seps }

length-visual_from : (c : ℕ) (seps : List ℕ) → length (visual_from c seps) ≡ length seps
unfolding visual_from
length-visual_from c [] = refl
length-visual_from c (s ∷ rest) = ap suc (length-visual_from (suc c) rest)

-- Which session is selected is what the list tells.
selected_session_idx-shown :
    (seps : List ℕ) (k : ℕ) → IsRising 1 seps → selected_session_idx (shown seps k) ≡ some k
unfolding selected_session_idx visual_to_session_idx row
selected_session_idx-shown seps k h =
    rw (contains-row 0 1 k seps h) (ap some (omega (arith, count_below-row 0 1 k seps h)))

-- The row of the next session: behind the separator, if there is one.
row-suc :
    (seps : List ℕ) (k : ℕ)
    → IsRising 1 seps
    → row seps (suc k)
      ≡ (if contains (suc k) seps then suc (suc (row seps k)) else suc (row seps k))
unfolding row
row-suc seps k h = ground (arith, rank-suc 1 k seps h)

row-IsFree :
    (seps : List ℕ) (k : ℕ) → IsRising 1 seps → contains (row seps k) (visual_from 0 seps) ≡ false
unfolding row
row-IsFree seps k h = contains-row 0 1 k seps h

behind :
    (seps : List ℕ) (k : ℕ)
    → IsRising 1 seps
    → contains (suc (row seps k)) (visual_from 0 seps) ≡ contains (suc k) seps
unfolding row
behind seps k h = contains-behind 0 1 k seps h

skip_down-stops :
    (rounds total next : ℕ) (rows : List ℕ)
    → (ltb next total && contains next rows) ≡ false
    → skip_down rounds total rows next ≡ next
unfolding skip_down
skip_down-stops zero total next rows h = refl
skip_down-stops (suc rounds) total next rows h = rw h refl

skip_down-row :
    (rounds total k : ℕ) (seps : List ℕ)
    → IsRising 1 seps
    → row seps (suc k) < total
    → skip_down (suc rounds) total (visual_from 0 seps) (suc (row seps k)) ≡ row seps (suc k)
unfolding skip_down
skip_down-row rounds total k seps h within = elim (Bool-cases (contains (suc k) seps)) [
  | inl gap ↦
      let eq : row seps (suc k) ≡ suc (row seps k) + 1 = ground (arith, row-suc seps k h) in
      let more : ltb (suc (row seps k)) total ≡ true = ground (arith, eq, within) in
      let there : contains (suc (row seps k)) (visual_from 0 seps) ≡ true = behind seps k h ∙ gap in
      let free : (ltb (row seps (suc k)) total && contains (row seps (suc k)) (visual_from 0 seps))
          ≡ false =
        ground (arith, row-IsFree seps (suc k) h) in
      rw (more, there)
        (ap (skip_down rounds total (visual_from 0 seps)) (sym eq)
          ∙ skip_down-stops rounds total (row seps (suc k)) (visual_from 0 seps) free)
  | inr close ↦
      let eq : row seps (suc k) ≡ suc (row seps k) = ground (arith, row-suc seps k h) in
      let free : contains (suc (row seps k)) (visual_from 0 seps) ≡ false =
        behind seps k h ∙ close in
      let stop : (ltb (suc (row seps k)) total && contains (suc (row seps k)) (visual_from 0 seps))
          ≡ false =
        ground (arith, free) in
      rw stop (sym eq)
]

skip_up-stops : (v : ℕ) (rows : List ℕ) → contains v rows ≡ false → skip_up rows v ≡ v
unfolding skip_up
skip_up-stops zero rows h = refl
skip_up-stops (suc v) rows h = rw h refl

skip_up-row :
    (k : ℕ) (seps : List ℕ)
    → IsRising 1 seps
    → contains (suc k) seps ≡ true
    → skip_up (visual_from 0 seps) (suc (row seps k)) ≡ row seps k
unfolding skip_up
skip_up-row k seps h gap =
    let there : contains (suc (row seps k)) (visual_from 0 seps) ≡ true = behind seps k h ∙ gap in
    rw there (skip_up-stops (row seps k) (visual_from 0 seps) (row-IsFree seps k h))

-- A step up to a row that is no separator.
up_from-free :
    (s : SessionListState) (c v : ℕ)
    → skip_up s.separator_indices c ≡ v
    → contains v s.separator_indices ≡ false
    → ReplayTui.up_from s (some (suc c)) ≡ record s { selected = some v }
up_from-free s c v h k = rw (h, k) refl

module _ (seps : List ℕ) (last : ℕ) (h : IsRising 1 seps) (bounded : All (λ s. s ≤ last) seps) where
  row-within : (k : ℕ) → k ≤ last → row seps k < suc last + length seps
  unfolding row
  row-within k h = omega (arith, h, rank_bound k seps)

  row-last : row seps last ≡ last + length seps
  unfolding row
  row-last = omega (arith, rank_all 1 last seps bounded)

  total-rows : total_rows (suc last) (shown seps 0) ≡ suc last + length seps
  unfolding total_rows
  total-rows = omega (arith, length-visual_from 0 seps)

  move_down-shown :
      (k : ℕ) → k ≤ last → move_down (suc last) (shown seps k) ≡ shown seps (min (k + 1) last)
  unfolding move_down total_rows
  move_down-shown k within =
      let size : suc last + length (visual_from 0 seps) ≡ suc last + length seps =
        omega (arith, length-visual_from 0 seps) in
      let step : row seps k + 1 ≡ suc (row seps k) = omega arith in
      let rounds : suc last + length seps ≡ suc (last + length seps) = omega arith in
      elim (Bool-cases (ltb k last)) [
        | inl more ↦
            let eq : min (k + 1) last ≡ suc k = ground arith in
            let inside : row seps (suc k) < suc last + length seps =
              row-within (suc k) (ground arith) in
            let next : skip_down (suc last + length seps) (suc last + length seps)
                  (visual_from 0 seps) (row seps k + 1)
                ≡ row seps (suc k) =
              ap (skip_down (suc last + length seps) (suc last + length seps) (visual_from 0 seps))
                step
              ∙ ap
                  (λ n.
                    skip_down n (suc last + length seps) (visual_from 0 seps) (suc (row seps k)))
                  rounds
              ∙ skip_down-row (last + length seps) (suc last + length seps) k seps h inside in
            let fits : ltb (row seps (suc k)) (suc last + length seps) ≡ true = ground arith in
            rw (size, next, fits, eq) refl
        | inr end ↦
            let here : k ≡ last = ground arith in
            let stay : min (k + 1) last ≡ k = ground arith in
            let at_end : row seps k ≡ last + length seps = ap (row seps) here ∙ row-last in
            let out : ltb (row seps k + 1) (suc last + length seps) ≡ false =
              ground (arith, at_end) in
            let stopped =
              skip_down-stops (suc last + length seps) (suc last + length seps) (row seps k + 1)
                (visual_from 0 seps) (ground (arith, out)) in
            rw (size, stopped, out, stay) refl
      ]

  move_up-shown : (k : ℕ) → move_up (shown seps k) ≡ shown seps (k - 1)
  unfolding move_up
  move_up-shown zero =
      let top : row seps 0 ≡ 0 = unfold row in omega (arith, rank_low 0 seps h) in
      ap (λ v. ReplayTui.up_from (shown seps 0) (some v)) top ∙ ap (shown seps) (omega arith)
  move_up-shown (suc k) =
      let back : k ≡ suc k - 1 = omega arith in
      elim (Bool-cases (contains (suc k) seps)) [
        | inl gap ↦
            let eq : row seps (suc k) ≡ suc (suc (row seps k)) = ground (arith, row-suc seps k h) in
            ap (λ v. ReplayTui.up_from (shown seps (suc k)) (some v)) eq
            ∙ up_from-free (shown seps (suc k)) (suc (row seps k)) (row seps k)
                (skip_up-row k seps h gap) (row-IsFree seps k h)
            ∙ ap (shown seps) back
        | inr close ↦
            let eq : row seps (suc k) ≡ suc (row seps k) = ground (arith, row-suc seps k h) in
            ap (λ v. ReplayTui.up_from (shown seps (suc k)) (some v)) eq
            ∙ up_from-free (shown seps (suc k)) (row seps k) (row seps k)
                (skip_up-stops (row seps k) (visual_from 0 seps) (row-IsFree seps k h))
                (row-IsFree seps k h)
            ∙ ap (shown seps) back
      ]

pub data Move : Type 0 where
  down up : Move

-- What the keys do to the list, and to the number of a session.
unfoldable pub moved : ℕ → List Move → SessionListState → SessionListState
moved num_sessions [] s = s
moved num_sessions (down ∷ ms) s = moved num_sessions ms (move_down num_sessions s)
moved num_sessions (up ∷ ms) s = moved num_sessions ms (move_up s)

unfoldable pub walked : ℕ → List Move → ℕ → ℕ
walked last [] k = k
walked last (down ∷ ms) k = walked last ms (min (k + 1) last)
walked last (up ∷ ms) k = walked last ms (k - 1)

moved-shown :
    (seps : List ℕ) (last : ℕ)
    → IsRising 1 seps
    → All (λ s. s ≤ last) seps
    → (ms : List Move) (k : ℕ) → k ≤ last
    → moved (suc last) ms (shown seps k) ≡ shown seps (walked last ms k)
unfolding moved walked
moved-shown seps last h bounded [] k within = refl
moved-shown seps last h bounded (down ∷ ms) k within =
    ap (moved (suc last) ms) (move_down-shown seps last h bounded k within)
    ∙ moved-shown seps last h bounded ms (min (k + 1) last) (omega arith)
moved-shown seps last h bounded (up ∷ ms) k within =
    ap (moved (suc last) ms) (move_up-shown seps last h bounded k)
    ∙ moved-shown seps last h bounded ms (k - 1) (omega (arith, within))

new_list-shown :
    (e : SessionListEntry) (es : List SessionListEntry)
    → new_list (e ∷ es) ≡ shown (compute_separator_positions (e ∷ es)) 0
unfolding new_list separator_visual_indices
new_list-shown e es =
    let seps = compute_separator_positions (e ∷ es) in
    let top : 0 ≡ row seps 0 =
      unfold row in omega (arith, rank_low 0 seps (separators-IsRising e es).0) in
    ap (λ v. record { selected = some v; separator_indices = visual_from 0 seps }) top

-- On a list with a session, whatever separators it shows: after any moves a session is selected, and
-- no separator; it is the one that the moves lead to by going to the next session or the one before
-- it, up to the last and the first.
pub moves_walk :
    (e : SessionListEntry) (es : List SessionListEntry) (ms : List Move)
    → selected_session_idx (moved (length (e ∷ es)) ms (new_list (e ∷ es)))
      ≡ some (walked (length es) ms 0)
moves_walk e es ms =
    let seps = compute_separator_positions (e ∷ es) in
    let h = separators-IsRising e es in
    ap (λ s. selected_session_idx (moved (suc (length es)) ms s)) (new_list-shown e es)
    ∙ ap selected_session_idx (moved-shown seps (length es) h.0 h.1 ms 0 (omega arith))
    ∙ selected_session_idx-shown seps (walked (length es) ms 0) h.0
