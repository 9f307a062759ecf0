-- ===== src/Base/Map.antt =====
-- A hash map with text keys as an association list. The order of the list is one of the orders
-- in which the program may walk the map; a new key goes to the end.
use Prim.Native.Nat.{suc, ◌≤◌}
use mathlib.Core.Path.{◌≡◌, refl, ap, subst₂}
use mathlib.Core.Bool.{Bool, true, false}
use mathlib.Core.List.{List, [], ◌∷◌, ◌++◌}
use mathlib.Core.Option.{Option, none, some}
use native.Mathlib.Omega.{arith}
use tttt.Base.Tests.{if◌then◌else◌, Bool-cases}
use mathlib.Core.Logic.{inl, inr}
use tttt.Base.Lists.{length, All}
use tttt.Base.Text.{Text, text_eq, text_eq_iff, text_eq_refl, text_eq_sym}

module _ {ℓ} {V : Type ℓ} where
  unfoldable pub get : Text → List (Text × V) → Option V
  get k [] = none
  get k ((j, v) ∷ m) = let rest = get k m in if text_eq j k then some v else rest

  unfoldable pub insert : Text → V → List (Text × V) → List (Text × V)
  insert k v [] = (k, v) ∷ []
  insert k v ((j, w) ∷ m) =
      let rest = insert k v m in if text_eq j k then (k, v) ∷ m else (j, w) ∷ rest

  unfoldable pub remove : Text → List (Text × V) → List (Text × V)
  remove k [] = []
  remove k ((j, v) ∷ m) = let rest = remove k m in if text_eq j k then rest else (j, v) ∷ rest

  unfoldable pub contains_key : Text → List (Text × V) → Bool
  contains_key k m = elim (get k m) [ none ↦ false | some v ↦ true ]

  -- `retain` by a test on the value.
  unfoldable pub retain_values : (V → Bool) → List (Text × V) → List (Text × V)
  retain_values p [] = []
  retain_values p ((j, v) ∷ m) = let rest = retain_values p m in if p v then (j, v) ∷ rest else rest

  pub get-nil : (k : Text) → get k [] ≡ none
  unfolding get
  get-nil k = refl

  pub get-insert :
      (k j : Text) (v : V) (m : List (Text × V))
      → get j (insert k v m) ≡ (if text_eq k j then some v else get j m)
  unfolding get insert
  get-insert k j v [] = refl
  get-insert k j v ((i, w) ∷ m) =
      ground (arith, text_eq_iff k j, text_eq_iff i k, text_eq_iff i j, get-insert k j v m)

  pub get-remove :
      (k j : Text) (m : List (Text × V))
      → get j (remove k m) ≡ (if text_eq k j then none else get j m)
  unfolding get remove
  get-remove k j [] = ground arith
  get-remove k j ((i, w) ∷ m) =
      ground (arith, text_eq_iff k j, text_eq_iff i k, text_eq_iff i j, get-remove k j m)

  pub length-insert :
      (k : Text) (v : V) (m : List (Text × V))
      → length (insert k v m) ≡ (if contains_key k m then length m else suc (length m))
  unfolding insert contains_key get
  length-insert k v [] = refl
  length-insert k v ((i, w) ∷ m) = ground (arith, length-insert k v m)

  pub length-remove-le : (k : Text) (m : List (Text × V)) → length (remove k m) ≤ length m
  unfolding remove
  length-remove-le k [] = omega arith
  length-remove-le k ((i, w) ∷ m) = ground (arith, length-remove-le k m)

  -- No key stands twice.
  abbrev pub Distinct : List (Text × V) → Type ℓ
  Distinct [] = Unit
  Distinct ((k, v) ∷ m) = (get k m ≡ none) × Distinct m

  pub get-append : (k : Text) (m l : List (Text × V)) → get k m ≡ none → get k (m ++ l) ≡ get k l
  unfolding get
  get-append k [] l h = refl
  get-append k ((j, v) ∷ m) l h = ground (arith, get-append k m l)

  pub insert-append :
      (k : Text) (v : V) (m l : List (Text × V))
      → get k m ≡ none
      → insert k v (m ++ l) ≡ m ++ insert k v l
  unfolding get insert
  insert-append k v [] l h = refl
  insert-append k v ((j, w) ∷ m) l h = ground (arith, insert-append k v m l)

  pub All_of_get-none :
      (k : Text) (m : List (Text × V)) → get k m ≡ none → All (λ e. text_eq e.0 k ≡ false) m
  unfolding get
  All_of_get-none k [] h = tt
  All_of_get-none k ((j, v) ∷ m) h = (ground arith, All_of_get-none k m (ground arith))

  pub get-cons_self : (k : Text) (v : V) (m : List (Text × V)) → get k ((k, v) ∷ m) ≡ some v
  unfolding get
  get-cons_self k v m = ground (arith, text_eq_refl k)

  pub get-cons_ne :
      (j k : Text) (v : V) (m : List (Text × V))
      → text_eq j k ≡ false
      → get k ((j, v) ∷ m) ≡ get k m
  unfolding get
  get-cons_ne j k v m h = rw h refl

  pub insert-cons_self :
      (k : Text) (v w : V) (m : List (Text × V)) → insert k v ((k, w) ∷ m) ≡ (k, v) ∷ m
  unfolding insert
  insert-cons_self k v w m = ground (arith, text_eq_refl k)

  pub insert-Distinct :
      (k : Text) (v : V) (m : List (Text × V)) → Distinct m → Distinct (insert k v m)
  unfolding insert
  insert-Distinct k v [] h = (get-nil k, tt)
  insert-Distinct k v ((j, w) ∷ m) h = elim (Bool-cases (text_eq j k)) [
    | inl same ↦ rw (same, ← (text_eq_iff j k).0 same) h
    | inr other ↦
        rw other (ground (arith, get-insert k j v m, text_eq_sym j k), insert-Distinct k v m h.1)
  ]

  pub remove-Distinct : (k : Text) (m : List (Text × V)) → Distinct m → Distinct (remove k m)
  unfolding remove
  remove-Distinct k [] h = tt
  remove-Distinct k ((j, w) ∷ m) h = elim (Bool-cases (text_eq j k)) [
    | inl same ↦ rw same (remove-Distinct k m h.1)
    | inr other ↦ rw other (ground (arith, get-remove k j m), remove-Distinct k m h.1)
  ]

  pub contains_key-insert :
      (k j : Text) (v : V) (m : List (Text × V))
      → contains_key j (insert k v m) ≡ (if text_eq k j then true else contains_key j m)
  unfolding contains_key
  contains_key-insert k j v m = ground (arith, get-insert k j v m)

  pub contains_key-remove :
      (k j : Text) (m : List (Text × V))
      → contains_key j (remove k m) ≡ (if text_eq k j then false else contains_key j m)
  unfolding contains_key
  contains_key-remove k j m = ground (arith, get-remove k j m)

  pub All-get {κ} :
      (P : Text × V → Type κ) (k : Text) (v : V) (m : List (Text × V))
      → All P m
      → get k m ≡ some v
      → P (k, v)
  unfolding get
  All-get P k v [] h e = absurd (ground arith)
  All-get P k v ((j, w) ∷ m) h e = elim (Bool-cases (text_eq j k)) [
    | inl same ↦
        let key : j ≡ k = (text_eq_iff j k).0 same in
        let value : w ≡ v = ground arith in subst₂ (λ a b. P (a, b)) key value h.0
    | inr other ↦ All-get P k v m h.1 (ground arith)
  ]

  pub All-insert {κ} :
      (P : Text × V → Type κ) (k : Text) (v : V) (m : List (Text × V))
      → P (k, v)
      → All P m
      → All P (insert k v m)
  unfolding insert
  All-insert P k v [] p h = (p, tt)
  All-insert P k v ((j, w) ∷ m) p h = elim (Bool-cases (text_eq j k)) [
    | inl same ↦ rw same (p, h.1)
    | inr other ↦ rw other (h.0, All-insert P k v m p h.1)
  ]

  pub All-remove {κ} :
      (P : Text × V → Type κ) (k : Text) (m : List (Text × V)) → All P m → All P (remove k m)
  unfolding remove
  All-remove P k [] h = tt
  All-remove P k ((j, w) ∷ m) h = elim (Bool-cases (text_eq j k)) [
    | inl same ↦ rw same (All-remove P k m h.1)
    | inr other ↦ rw other (h.0, All-remove P k m h.1)
  ]

  pub All-retain_values {κ} :
      (P : Text × V → Type κ) (p : V → Bool) (m : List (Text × V))
      → All P m
      → All (λ e. P e × (p e.1 ≡ true)) (retain_values p m)
  unfolding retain_values
  All-retain_values P p [] h = tt
  All-retain_values P p ((j, w) ∷ m) h = elim (Bool-cases (p w)) [
    | inl kept ↦ rw kept ((h.0, kept), All-retain_values P p m h.1)
    | inr dropped ↦ rw dropped (All-retain_values P p m h.1)
  ]

  get-retain_values-none :
      (k : Text) (p : V → Bool) (m : List (Text × V))
      → get k m ≡ none
      → get k (retain_values p m) ≡ none
  unfolding get retain_values
  get-retain_values-none k p [] h = refl
  get-retain_values-none k p ((j, w) ∷ m) h = ground (arith, get-retain_values-none k p m)

  abbrev pub kept_if : (V → Bool) → Option V → Option V
  kept_if p none = none
  kept_if p (some v) = if p v then some v else none

  pub get-retain_values :
      (k : Text) (p : V → Bool) (m : List (Text × V))
      → Distinct m
      → get k (retain_values p m) ≡ kept_if p (get k m)
  unfolding get retain_values
  get-retain_values k p [] h = refl
  get-retain_values k p ((j, w) ∷ m) h = ground (
    arith,
    get-retain_values k p m h.1,
    get-retain_values-none k p m,
    text_eq_iff j k,
    ap (λ i. get i m),
  )

  pub retain_values-Distinct :
      (p : V → Bool) (m : List (Text × V)) → Distinct m → Distinct (retain_values p m)
  unfolding retain_values
  retain_values-Distinct p [] h = tt
  retain_values-Distinct p ((j, w) ∷ m) h = elim (Bool-cases (p w)) [
    | inl kept ↦ rw kept (get-retain_values-none j p m h.0, retain_values-Distinct p m h.1)
    | inr dropped ↦ rw dropped (retain_values-Distinct p m h.1)
  ]

module _ {ℓ} {V : Type ℓ} where
  pub All_map {κ μ} :
      (P : V → Type κ) (Q : V → Type μ) (l : List V) → ((v : V) → P v → Q v) → All P l → All Q l
  All_map P Q [] imp h = tt
  All_map P Q (v ∷ l) imp h = (imp v h.0, All_map P Q l imp h.1)
