-- ===== src/ReplayTui.antt =====
-- src/replay_tui.rs: the list of recorded sessions and the view of one, without their drawing. The
-- selection of the table is a row, or none. The database, the clock and the speed, a float, are
-- parameters; times are milliseconds.
pub mod Rows
pub mod Navigate
pub mod View
mod Samples
use tttt.Base.{
  ℕ, zero, suc, ◌+◌, ◌-◌, ◌*◌, Bool, true, false, not, ◌&&◌, Option, none, some, List, [], ◌∷◌, ltb,
  leb, ◌==◌, if◌then◌else◌, length, is_empty, any, get_elem?, Result, ok, err,
}
use tttt.Base.Text.{Text}

pub data LoadStrategy : Type 0 where
  by_pid by_time_range : LoadStrategy

-- An entry of the list, of whose info only what this code reads.
pub record SessionListEntry : Type 0 where
  pub session_id : Text
  pub pid : Option ℕ
  pub started_at_ms : ℕ
  pub ended_at_ms : Option ℕ
  pub cols : ℕ
  pub rows : ℕ
  pub load_strategy : LoadStrategy

abbrev pub visual_gap_threshold_ms : ℕ
visual_gap_threshold_ms = 3_600_000

abbrev pub or_else : ℕ → Option ℕ → ℕ
or_else d none = d
or_else d (some n) = n

-- The loop from an index on, behind a newer entry.
unfoldable pub separators_from : ℕ → SessionListEntry → List SessionListEntry → List ℕ
separators_from i newer [] = []
separators_from i newer (older ∷ rest) =
    let later = separators_from (suc i) older rest in
    if ltb visual_gap_threshold_ms
      (newer.started_at_ms - or_else older.started_at_ms older.ended_at_ms)
    then i ∷ later
    else later

unfoldable pub compute_separator_positions : List SessionListEntry → List ℕ
compute_separator_positions [] = []
compute_separator_positions (e ∷ rest) = separators_from 1 e rest

-- `enumerate` from a count on.
unfoldable pub visual_from : ℕ → List ℕ → List ℕ
visual_from count [] = []
visual_from count (s ∷ rest) = (s + count) ∷ visual_from (suc count) rest

unfoldable pub separator_visual_indices : List ℕ → List ℕ
separator_visual_indices sep_before = visual_from 0 sep_before

unfoldable pub contains : ℕ → List ℕ → Bool
contains v [] = false
contains v (s ∷ rest) = let later = contains v rest in if s == v then true else later

unfoldable pub count_below : ℕ → List ℕ → ℕ
count_below v [] = 0
count_below v (s ∷ rest) = let later = count_below v rest in if ltb s v then suc later else later

unfoldable pub visual_to_session_idx : ℕ → List ℕ → Option ℕ
visual_to_session_idx visual sep_visual =
    if contains visual sep_visual then none else some (visual - count_below visual sep_visual)

pub record SessionListState : Type 0 where
  pub selected : Option ℕ
  pub separator_indices : List ℕ

unfoldable pub new_list : List SessionListEntry → SessionListState
new_list sessions = record {
  selected = if is_empty sessions then none else some 0;
  separator_indices = separator_visual_indices (compute_separator_positions sessions);
}

unfoldable pub total_rows : ℕ → SessionListState → ℕ
total_rows num_sessions s = num_sessions + length s.separator_indices

abbrev pub session_at : List ℕ → Option ℕ → Option ℕ
session_at seps none = none
session_at seps (some v) = visual_to_session_idx v seps

unfoldable pub selected_session_idx : SessionListState → Option ℕ
selected_session_idx s = session_at s.separator_indices s.selected

-- The loop of `move_down`, whose rounds are at most the rows.
unfoldable pub skip_down : ℕ → ℕ → List ℕ → ℕ → ℕ
skip_down zero total seps next = next
skip_down (suc rounds) total seps next =
    let later = skip_down rounds total seps (next + 1) in
    if ltb next total && contains next seps then later else next

unfoldable pub move_down : ℕ → SessionListState → SessionListState
move_down num_sessions s =
    let total = total_rows num_sessions s in
    let next = skip_down total total s.separator_indices (or_else 0 s.selected + 1) in
    if ltb next total then record s { selected = some next } else s

-- The loop of `move_up`, which ends at the top.
unfoldable pub skip_up : List ℕ → ℕ → ℕ
skip_up seps zero = zero
skip_up seps (suc prev) =
    let later = skip_up seps prev in if contains (suc prev) seps then later else suc prev

abbrev pub up_from : SessionListState → Option ℕ → SessionListState
up_from s none = s
up_from s (some zero) = s
up_from s (some (suc c)) =
    let prev = skip_up s.separator_indices c in
    if contains prev s.separator_indices then s else record s { selected = some prev }

unfoldable pub move_up : SessionListState → SessionListState
move_up s = up_from s s.selected
