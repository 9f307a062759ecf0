-- ===== src/Pty/Manager/Listing.antt =====
-- `list` and `kill_session`: what they return and what they leave.
use mathlib.Core.List.{Perm}
use mathlib.Core.List.Perm
use mathlib.Core.Path.{subst}
use tttt.Base.{
  ℕ, ◌≤◌, ◌<◌, ◌≡◌, not, none, List, [], ◌∷◌, map, arith, ok, if◌then◌else◌, Result-cases,
  Bool-cases, inl, inr, All, leb, leb→le,
}
use tttt.Base.Text.{Text, codes, text_eq, strip_prefix-append}
use tttt.Base.Decimal.{to_decimal, u64_bound, parse_unsigned-to_decimal}
use tttt.Base.Map
use tttt.Pty.Backend.{PtyBackend}
use tttt.Pty.Screen.{Vt100}
use tttt.Pty.Session
use tttt.Pty.Session.{PtySession, SessionMetadata, is_running}
use tttt.Pty.Manager
use tttt.Pty.Manager.{SessionManager, id_number, insert_by_number, sort_by_number}
use tttt.Pty.Manager.Names.{IsSound}

-- Every number is at most the numbers behind it.
abbrev pub IsSorted : List SessionMetadata → Type 0
IsSorted [] = Unit
IsSorted (a ∷ l) = All (λ b. id_number a.id ≤ id_number b.id) l × IsSorted l

insert-All :
    (n : ℕ) (a : SessionMetadata) (l : List SessionMetadata)
    → n ≤ id_number a.id
    → All (λ b. n ≤ id_number b.id) l
    → All (λ b. n ≤ id_number b.id) (insert_by_number a l)
unfolding insert_by_number
insert-All n a [] h k = (h, tt)
insert-All n a (b ∷ l) h k = elim (Bool-cases (leb (id_number a.id) (id_number b.id))) [
  | inl first ↦ rw first (h, k)
  | inr later ↦ rw later (k.0, insert-All n a l h k.1)
]

below_all :
    (n m : ℕ) (l : List SessionMetadata)
    → n ≤ m
    → All (λ b. m ≤ id_number b.id) l
    → All (λ b. n ≤ id_number b.id) l
below_all n m [] h k = tt
below_all n m (b ∷ l) h k = (omega arith, below_all n m l h k.1)

insert-IsSorted :
    (a : SessionMetadata) (l : List SessionMetadata) → IsSorted l → IsSorted (insert_by_number a l)
unfolding insert_by_number
insert-IsSorted a [] h = (tt, tt)
insert-IsSorted a (b ∷ l) h = elim (Bool-cases (leb (id_number a.id) (id_number b.id))) [
  | inl first ↦
      let le = leb→le (id_number a.id) (id_number b.id) first in
      rw first ((le, below_all (id_number a.id) (id_number b.id) l le h.0), h)
  | inr later ↦
      rw later (insert-All (id_number b.id) a l (ground arith) h.0, insert-IsSorted a l h.1)
]

insert-perm : (a : SessionMetadata) (l : List SessionMetadata) → Perm (insert_by_number a l) (a ∷ l)
unfolding insert_by_number
insert-perm a [] = Perm.refl (a ∷ [])
insert-perm a (b ∷ l) = elim (Bool-cases (leb (id_number a.id) (id_number b.id))) [
  | inl first ↦ rw first (Perm.refl (a ∷ b ∷ l))
  | inr later ↦ rw later (Perm.trans (Perm.cons b (insert-perm a l)) (Perm.swap a b l))
]

sort-IsSorted : (l : List SessionMetadata) → IsSorted (sort_by_number l)
unfolding sort_by_number
sort-IsSorted [] = tt
sort-IsSorted (a ∷ l) = insert-IsSorted a (sort_by_number l) (sort-IsSorted l)

sort-perm : (l : List SessionMetadata) → Perm (sort_by_number l) l
unfolding sort_by_number
sort-perm [] = Perm.refl []
sort-perm (a ∷ l) = Perm.trans (insert-perm a (sort_by_number l)) (Perm.cons a (sort-perm l))

module _ (V : Vt100) (B : PtyBackend) where
  -- The list has the metadata of every session once, by rising numbers.
  pub list-IsSorted :
      (g : SessionManager V B)
      → IsSorted (Manager.list V B g)
        × Perm (Manager.list V B g) (map (λ e. Session.metadata V B e.1) g.sessions)
  unfolding Manager.list
  list-IsSorted g = (sort-IsSorted _, sort-perm _)

  -- While the counter is below 2^64: the number of a generated identifier is the counter, so that
  -- identifiers are listed in the order in which they were generated.
  pub id_number-generate_id :
      (g : SessionManager V B)
      → g.next_id < u64_bound
      → id_number (Manager.generate_id V B g).0 ≡ g.next_id
  unfolding Manager.generate_id id_number
  id_number-generate_id g fits =
      rw (strip_prefix-append (codes "pty-") (to_decimal g.next_id))
        (rw (parse_unsigned-to_decimal u64_bound g.next_id fits))

  -- What is left after the session `id` is removed.
  pub record IsRemoved (id : Text) (g h : SessionManager V B) : Type 0 where
    pub sessions :
        (j : Text) → Map.get j h.sessions ≡ (if text_eq id j then none else Map.get j g.sessions)
    pub names :
        (n : Text) → Map.get n h.names ≡ Map.kept_if (λ v. not (text_eq v id)) (Map.get n g.names)

  removed-IsRemoved :
      (id : Text) (g : SessionManager V B)
      → IsSound V B g
      → IsRemoved id g (Manager.removed V B id g)
  removed-IsRemoved id g h = record {
    sessions = λ j. Map.get-remove id j g.sessions;
    names = λ n. Map.get-retain_values n (λ v. not (text_eq v id)) g.names h.distinct_names;
  }

  -- In a well-formed manager: a kill that succeeds removes the session that its key leads to, with
  -- every name of that session, and no other session or name.
  pub kill_session_removes :
      (key : Text) (g h : SessionManager V B)
      → IsSound V B g
      → Manager.kill_session V B key g ≡ (ok tt, h)
      → (id : Text) × (Manager.resolve_id V B key g ≡ ok id) × IsRemoved id g h
  unfolding Manager.kill_session
  kill_session_removes key g h sound e = elim (Result-cases (Manager.resolve_id V B key g)) [
    | inr (why, unknown) ↦ absurd (ground arith)
    | inl (id, known) ↦
        let same : Manager.removed V B id g ≡ h = ground arith in
        (id, known, subst (IsRemoved id g) same (removed-IsRemoved id g sound))
  ]
