-- ===== src/Scheduler/Counts.antt =====
-- How often an identifier is pending, before and after each change of the reminders' map.
use tttt.Base.{
  ℕ, ◌+◌, ◌≡◌, none, some, List, [], ◌∷◌, ◌++◌, if◌then◌else◌, Option-cases, inl, inr, arith, ◌↔◌,
}
use tttt.Base.Text.{Text, text_eq, text_eq_iff}
use tttt.Scheduler.{Reminder, Buckets, push_at, remove_first, keep_bucket, remove_from, pending}

unfoldable pub count : Text → List Reminder → ℕ
count id [] = 0
count id (r ∷ rs) = (if text_eq r.id id then 1 else 0) + count id rs

pub count-append :
    (id : Text) (rs ss : List Reminder) → count id (rs ++ ss) ≡ count id rs + count id ss
unfolding count
count-append id [] ss = omega arith
count-append id (r ∷ rs) ss = omega (arith, count-append id rs ss)

pub count-push_at :
    (id : Text) (key : ℕ) (r : Reminder) (m : Buckets)
    → count id (pending (push_at key r m))
      ≡ (if text_eq r.id id then 1 else 0) + count id (pending m)
unfolding push_at pending
count-push_at id key r [] = unfold count in omega arith
count-push_at id key r ((k, rs) ∷ m) = ground (
  arith,
  count-append id rs (pending m),
  count-append id (rs ++ r ∷ []) (pending m),
  count-append id (r ∷ []) (rs ++ pending m),
  count-append id rs (r ∷ []),
  count-append id rs (pending (push_at key r m)),
  one,
  count-push_at id key r m,
)
  where
    one : count id (r ∷ []) ≡ (if text_eq r.id id then 1 else 0)
    one = unfold count in omega arith

count-remove_first :
    (id j : Text) (rs : List Reminder) (kept : List Reminder)
    → remove_first id rs ≡ some kept
    → count j rs ≡ (if text_eq id j then 1 else 0) + count j kept
unfolding remove_first count
count-remove_first id j [] kept h = ground arith
count-remove_first id j (r ∷ rs) kept h = elim (Option-cases (remove_first id rs)) [
  | inl gone ↦ ground (arith, text_eq_iff r.id id)
  | inr (rest, found) ↦ ground (arith, text_eq_iff r.id id, count-remove_first id j rs rest found)
]

remove_first-none :
    (id : Text) (rs : List Reminder) → (remove_first id rs ≡ none) ↔ (count id rs ≡ 0)
unfolding remove_first count
remove_first-none id [] = ground arith
remove_first-none id (r ∷ rs) = ground (arith, remove_first-none id rs)

count-keep_bucket :
    (j : Text) (k : ℕ) (rs : List Reminder) (m : Buckets)
    → count j (pending (keep_bucket k rs m)) ≡ count j rs + count j (pending m)
unfolding keep_bucket pending
count-keep_bucket j k [] m = unfold count in omega arith
count-keep_bucket j k (r ∷ rs) m = count-append j (r ∷ rs) (pending m)

pub count-remove_from :
    (id j : Text) (m kept : Buckets)
    → remove_from id m ≡ some kept
    → count j (pending m) ≡ (if text_eq id j then 1 else 0) + count j (pending kept)
unfolding remove_from pending
count-remove_from id j [] kept h = ground arith
count-remove_from id j ((k, rs) ∷ m) kept h = elim (Option-cases (remove_first id rs)) [
  | inl gone ↦ elim (Option-cases (remove_from id m)) [
    | inl nowhere ↦ absurd (ground arith)
    | inr (rest, found) ↦
        let same : (k, rs) ∷ rest ≡ kept = ground arith in
        rw (← same) (
          ground (
            arith,
            count-append j rs (pending m),
            count-append j rs (pending rest),
            count-remove_from id j m rest found,
          ))
  ]
  | inr (left, found) ↦
      let same : keep_bucket k left m ≡ kept = ground arith in
      rw (← same) (
        ground (
          arith,
          count-append j rs (pending m),
          count-keep_bucket j k left m,
          count-remove_first id j rs left found,
        ))
]

pub remove_from-none :
    (id : Text) (m : Buckets) → (remove_from id m ≡ none) ↔ (count id (pending m) ≡ 0)
unfolding remove_from pending
remove_from-none id [] = unfold count in ground arith
remove_from-none id ((k, rs) ∷ m) =
    ground (arith, count-append id rs (pending m), remove_first-none id rs, remove_from-none id m)
