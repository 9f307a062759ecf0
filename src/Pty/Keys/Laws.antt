-- ===== src/Pty/Keys/Laws.antt =====
-- What `process_special_keys` makes of plain text, of key names and of control characters.
use tttt.Base.{
  ℕ, zero, suc, ◌%◌, ◌≤◌, ◌≡◌, refl, true, false, ◌||◌, some, List, [], ◌∷◌, ◌++◌, ◌==◌, length,
  All, arith, ap, ◌∙◌, Option-cases, inl, inr,
}
use tttt.Base.Text.{Text}
use tttt.Pty.Keys.Sequences.{bracket_sequence}
use tttt.Pty.Keys.{
  Round, is_upper, is_lower, control, hex_escape, backslash, until_bracket, bracket, special, round,
  key_loop, process_special_keys,
}

hex_escape_shorter : (s : Text) (r : Round) → hex_escape s ≡ some r → length r.1 ≤ length s
unfolding hex_escape
hex_escape_shorter [] r h = ground arith
hex_escape_shorter (a ∷ []) r h = ground arith
hex_escape_shorter (a ∷ b ∷ s) r h = ground arith

control_shorter : (s : Text) (r : Round) → control s ≡ some r → length r.1 ≤ length s
unfolding control
control_shorter [] r h = ground arith
control_shorter (c ∷ s) r h = ground arith

backslash_shorter : (s : Text) (r : Round) → backslash s ≡ some r → length r.1 ≤ length s
unfolding backslash
backslash_shorter [] r h = ground arith
backslash_shorter (c ∷ s) r h = ground (arith, hex_escape_shorter s r)

until_bracket_shorter :
    (s : Text) (tag rest : Text) → until_bracket s ≡ some (tag, rest) → length rest ≤ length s
unfolding until_bracket
until_bracket_shorter [] tag rest h = ground arith
until_bracket_shorter (c ∷ cs) tag rest h = elim (Option-cases (until_bracket cs)) [
  | inl open_ended ↦ ground arith
  | inr (p, found) ↦ ground (arith, until_bracket_shorter cs p.0 p.1)
]

bracket_shorter : (s : Text) (r : Round) → bracket s ≡ some r → length r.1 ≤ length s
unfolding bracket
bracket_shorter s r h = elim (Option-cases (until_bracket s)) [
  | inl open_ended ↦ ground arith
  | inr (p, found) ↦ ground (arith, until_bracket_shorter s p.0 p.1)
]

special_shorter : (c : ℕ) (s : Text) (r : Round) → special c s ≡ some r → length r.1 ≤ length s
unfolding special
special_shorter c s r h =
    ground (arith, control_shorter s r, backslash_shorter s r, bracket_shorter s r)

round_shorter : (c : ℕ) (s : Text) → length (round c s).1 ≤ length s
unfolding round
round_shorter c s = elim (Option-cases (special c s)) [
  | inl ordinary ↦ ground arith
  | inr (r, found) ↦ ground (arith, special_shorter c s r)
]

-- More fuel than bytes changes nothing.
key_loop_fuel :
    (fuel more : ℕ) (s : Text)
    → length s ≤ fuel
    → length s ≤ more
    → key_loop fuel s ≡ key_loop more s
unfolding key_loop
key_loop_fuel zero zero s h k = refl
key_loop_fuel zero (suc more) [] h k = refl
key_loop_fuel zero (suc more) (c ∷ s) h k = absurd (omega arith)
key_loop_fuel (suc fuel) zero [] h k = refl
key_loop_fuel (suc fuel) zero (c ∷ s) h k = absurd (omega arith)
key_loop_fuel (suc fuel) (suc more) [] h k = refl
key_loop_fuel (suc fuel) (suc more) (c ∷ s) h k =
    ap (λ l. (round c s).0 ++ l)
      (key_loop_fuel fuel more (round c s).1 (omega (arith, round_shorter c s))
        (omega (arith, round_shorter c s)))

-- The loop's equation: one round at the front, and the rest of the text.
pub process_cons :
    (c : ℕ) (s : Text)
    → process_special_keys (c ∷ s) ≡ (round c s).0 ++ process_special_keys (round c s).1
unfolding process_special_keys key_loop
process_cons c s =
    ap (λ l. (round c s).0 ++ l)
      (key_loop_fuel (length s) (length (round c s).1) (round c s).1 (round_shorter c s)
        (omega arith))

pub process_nil : process_special_keys [] ≡ []
unfolding process_special_keys key_loop
process_nil = refl

abbrev pub IsPlain : ℕ → Type 0
IsPlain c = ((c == b'^') ≡ false) × ((c == b'\\') ≡ false) × ((c == b'[') ≡ false)

round_plain : (c : ℕ) (t : Text) → IsPlain c → round c t ≡ (c ∷ [], t)
unfolding round special
round_plain c t h = ground arith

-- A prefix without `^`, backslash and `[` is sent as it is, whatever follows.
pub process-plain :
    (s rest : Text)
    → All IsPlain s
    → process_special_keys (s ++ rest) ≡ s ++ process_special_keys rest
process-plain [] rest h = refl
process-plain (c ∷ s) rest h =
    process_cons c (s ++ rest)
    ∙ rw (round_plain c (s ++ rest) h.0) (ap (λ l. c ∷ l) (process-plain s rest h.1))

until_bracket-append :
    (tag rest : Text)
    → All (λ c. (c == b']') ≡ false) tag
    → until_bracket (tag ++ b']' ∷ rest) ≡ some (tag, rest)
unfolding until_bracket
until_bracket-append [] rest h = refl
until_bracket-append (c ∷ tag) rest h = ground (arith, h.0, until_bracket-append tag rest h.1)

-- The name of a key, without a closing bracket in it, is sent in brackets as the bytes of the key,
-- whatever follows.
pub process-bracket :
    (tag rest : Text) {seq : List ℕ}
    → All (λ c. (c == b']') ≡ false) tag
    → bracket_sequence tag ≡ some seq
    → process_special_keys (b'[' ∷ (tag ++ b']' ∷ rest)) ≡ seq ++ process_special_keys rest
process-bracket tag rest {seq} closed known = process_cons b'[' (tag ++ b']' ∷ rest) ∙ rw taken refl
  where
    taken : round b'[' (tag ++ b']' ∷ rest) ≡ (seq, rest)
    taken = unfold round special bracket in ground (arith, until_bracket-append tag rest closed)

-- A caret and a letter of either case is sent as the letter's control character.
pub process-caret :
    (c : ℕ) (rest : Text)
    → (is_upper c || is_lower c) ≡ true
    → process_special_keys (b'^' ∷ c ∷ rest) ≡ (c % 32) ∷ process_special_keys rest
process-caret c rest letter = process_cons b'^' (c ∷ rest) ∙ rw taken refl
  where
    taken : round b'^' (c ∷ rest) ≡ ((c % 32) ∷ [], rest)
    taken = unfold round special control in ground arith
