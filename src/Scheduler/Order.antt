-- ===== src/Scheduler/Order.antt =====
-- The reminders' map: its order, and what the loop over the due keys takes out of it.
use tttt.Base.{
  ℕ, suc, ◌≤◌, ◌<◌, ◌≡◌, ◌≢◌, refl, Bool, true, false, some, List, [], ◌∷◌, ◌++◌, ltb, leb, ◌==◌,
  retain, All, All-append, Bool-cases, Option-cases, inl, inr, arith, ltb→lt, ==_iff, append_assoc,
  ap, ◌∙◌,
}
use tttt.Base.Text.{Text, text_eq}
use tttt.Scheduler.{
  Reminder, Buckets, key_at, push_at, remove_first, keep_bucket, remove_from, due_keys, take_bucket,
  fire_reminders, pending,
}
use mathlib.Core.List.{concat-ne-nil}
use mathlib.Core.Path.{subst}

-- The reminder is filed under the key of the time at which it fires.
abbrev pub IsFiled : ℕ → ℕ → Reminder → Type 0
IsFiled epoch k r = (t : ℕ) × (r.fire_at ≡ some t) × (key_at epoch t ≡ k)

-- Keys from `lo` on, strictly rising; no bucket is empty, and each reminder is in its bucket.
abbrev pub InOrder : ℕ → ℕ → Buckets → Type 0
InOrder epoch lo [] = Unit
InOrder epoch lo ((k, rs) ∷ m) =
    (lo ≤ k) × (rs ≢ []) × All (IsFiled epoch k) rs × InOrder epoch (suc k) m

module _ (epoch : ℕ) where
  pub InOrder-weaken : (lo hi : ℕ) (m : Buckets) → lo ≤ hi → InOrder epoch hi m → InOrder epoch lo m
  InOrder-weaken lo hi [] le h = tt
  InOrder-weaken lo hi ((k, rs) ∷ m) le h = (omega arith, h.1, h.2, h.3)

  pub push_at-InOrder :
      (lo key : ℕ) (r : Reminder) (m : Buckets)
      → lo ≤ key
      → IsFiled epoch key r
      → InOrder epoch lo m
      → InOrder epoch lo (push_at key r m)
  unfolding push_at
  push_at-InOrder lo key r [] le f h = (le, (λ e. cc e), (f, tt), tt)
  push_at-InOrder lo key r ((k, rs) ∷ m) le f h = elim (Bool-cases (ltb key k)) [
    | inl below ↦ rw below (le, (λ e. cc e), (f, tt), (ltb→lt key k below, h.1, h.2, h.3))
    | inr not_below ↦ elim (Bool-cases (key == k)) [
      | inl same ↦
          rw (not_below, same)
            (
              h.0,
              concat-ne-nil r rs,
              All-append (IsFiled epoch k) rs (r ∷ []) h.2
                  (subst (λ j. IsFiled epoch j r) ((==_iff key k).0 same) f, tt),
              h.3,
            )
      | inr other ↦
          rw (not_below, other)
            (h.0, h.1, h.2, push_at-InOrder (suc k) key r m (ground arith) f h.3)
    ]
  ]

  pub remove_first-All :
      (P : Reminder → Type 0) (id : Text) (rs kept : List Reminder)
      → All P rs
      → remove_first id rs ≡ some kept
      → All P kept
  unfolding remove_first
  remove_first-All P id [] kept h e = absurd (ground arith)
  remove_first-All P id (r ∷ rs) kept h e = elim (Bool-cases (text_eq r.id id)) [
    | inl hit ↦ let same : rs ≡ kept = ground arith in subst (All P) same h.1
    | inr miss ↦ elim (Option-cases (remove_first id rs)) [
      | inl gone ↦ absurd (ground arith)
      | inr (rest, found) ↦
          let same : r ∷ rest ≡ kept = ground arith in
          subst (All P) same (h.0, remove_first-All P id rs rest h.1 found)
    ]
  ]

  keep_bucket-InOrder :
      (lo k : ℕ) (rs : List Reminder) (m : Buckets)
      → lo ≤ k
      → All (IsFiled epoch k) rs
      → InOrder epoch (suc k) m
      → InOrder epoch lo (keep_bucket k rs m)
  unfolding keep_bucket
  keep_bucket-InOrder lo k [] m le f h = InOrder-weaken lo (suc k) m (omega arith) h
  keep_bucket-InOrder lo k (r ∷ rs) m le f h = (le, (λ e. cc e), f, h)

  pub remove_from-InOrder :
      (lo : ℕ) (id : Text) (m kept : Buckets)
      → InOrder epoch lo m
      → remove_from id m ≡ some kept
      → InOrder epoch lo kept
  unfolding remove_from
  remove_from-InOrder lo id [] kept h e = absurd (ground arith)
  remove_from-InOrder lo id ((k, rs) ∷ m) kept h e = elim (Option-cases (remove_first id rs)) [
    | inl gone ↦ elim (Option-cases (remove_from id m)) [
      | inl nowhere ↦ absurd (ground arith)
      | inr (rest, found) ↦
          let same : (k, rs) ∷ rest ≡ kept = ground arith in
          subst (InOrder epoch lo) same
            (h.0, h.1, h.2, remove_from-InOrder (suc k) id m rest h.3 found)
    ]
    | inr (left, found) ↦
        let same : keep_bucket k left m ≡ kept = ground arith in
        subst (InOrder epoch lo) same (
          keep_bucket-InOrder lo k left m h.0
            (remove_first-All (IsFiled epoch k) id rs left h.2 found) h.3)
  ]

  -- Nothing is due while the first key is later.
  pub above :
      (n lo : ℕ) (m : Buckets)
      → n < lo
      → InOrder epoch lo m
      → (due_keys n m ≡ []) × (retain (λ b. leb b.0 n) m ≡ []) × (retain (λ b. ltb n b.0) m ≡ m)
  unfolding due_keys
  above n lo [] lt h = (refl, refl, refl)
  above n lo ((k, rs) ∷ m) lt h = let ih = above n (suc k) m (omega arith) h.3 in ground arith

  -- The loop takes the buckets up to the key, and leaves the others.
  pub fire_reminders-due_keys :
      (n lo : ℕ) (m : Buckets)
      → InOrder epoch lo m
      → fire_reminders (due_keys n m) m
        ≡ (pending (retain (λ b. leb b.0 n) m), retain (λ b. ltb n b.0) m)
  unfolding fire_reminders take_bucket due_keys pending
  fire_reminders-due_keys n lo [] h = refl
  fire_reminders-due_keys n lo ((k, rs) ∷ m) h =
      ground (arith, above n (suc k) m, fire_reminders-due_keys n (suc k) m h.3)

  pub retain-InOrder :
      (p : ℕ → Bool) (lo : ℕ) (m : Buckets)
      → InOrder epoch lo m
      → InOrder epoch lo (retain (λ b. p b.0) m)
  retain-InOrder p lo [] h = tt
  retain-InOrder p lo ((k, rs) ∷ m) h = elim (Bool-cases (p k)) [
    | inl kept ↦ rw kept (h.0, h.1, h.2, retain-InOrder p (suc k) m h.3)
    | inr dropped ↦ rw dropped (
        InOrder-weaken lo (suc k) (retain (λ b. p b.0) m) (omega arith)
          (retain-InOrder p (suc k) m h.3))
  ]

  -- What is due and what is not are all that was pending, the due ones first.
  pub pending-retain :
      (n lo : ℕ) (m : Buckets)
      → InOrder epoch lo m
      → pending (retain (λ b. leb b.0 n) m) ++ pending (retain (λ b. ltb n b.0) m) ≡ pending m
  unfolding pending
  pending-retain n lo [] h = refl
  pending-retain n lo ((k, rs) ∷ m) h = elim (Bool-cases (leb k n)) [
    | inl due ↦
        let not_later : ltb n k ≡ false = ground arith in
        rw (due, not_later)
          (append_assoc rs _ _ ∙ ap (λ l. rs ++ l) (pending-retain n (suc k) m h.3))
    | inr later ↦
        let after : ltb n k ≡ true = ground arith in
        let none_due = above n (suc k) m (ground arith) h.3 in
        rw (later, after, none_due.1, none_due.2) refl
  ]

  -- What holds of the reminders filed under the keys that a test keeps holds of all kept.
  pub pending-All_of_keys :
      (P : Reminder → Type 0) (p : ℕ → Bool) (m : Buckets) (lo : ℕ)
      → InOrder epoch lo m
      → ((k : ℕ) (r : Reminder) → p k ≡ true → IsFiled epoch k r → P r)
      → All P (pending (retain (λ b. p b.0) m))
  unfolding pending
  pending-All_of_keys P p [] lo h imp = tt
  pending-All_of_keys P p ((k, rs) ∷ m) lo h imp =
      let ih = pending-All_of_keys P p m (suc k) h.3 imp in
      elim (Bool-cases (p k)) [
        | inl kept ↦
            rw kept (All-append P rs (pending (retain (λ b. p b.0) m)) (All_map kept rs h.2) ih)
        | inr dropped ↦ rw dropped ih
      ]
    where
      All_map : p k ≡ true → (l : List Reminder) → All (IsFiled epoch k) l → All P l
      All_map kept [] a = tt
      All_map kept (r ∷ l) a = (imp k r kept a.0, All_map kept l a.1)
