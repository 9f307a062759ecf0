-- ===== src/Base/Decimal.antt =====
-- Decimal numbers in text: what Rust's formatting prints and `parse::<u64>` reads.
use Prim.Native.Nat.{ℕ, zero, suc, ◌+◌, ◌-◌, ◌*◌, ◌/◌, ◌%◌, ◌^◌, ◌<◌}
use mathlib.Core.Path.{◌≡◌, refl, ap, ◌∙◌}
use mathlib.Core.Bool.{Bool, true, false, ◌&&◌}
use mathlib.Core.List.{[], ◌∷◌, ◌++◌, concat-ne-nil}
use mathlib.Core.Logic.{◌≢◌, inl, inr}
use mathlib.Core.Option.{Option, none, some}
use native.Mathlib.Omega.{arith}
use tttt.Base.Tests.{ltb, leb, ◌==◌, if◌then◌else◌, ltb→lt, Bool-cases, Option-cases}
use tttt.Base.Lists.{All, All-append}
use tttt.Base.Text.{Text}

abbrev pub is_digit : ℕ → Bool
is_digit c = leb b'0' c && leb c b'9'

-- One digit of an unsigned number that must stay below `bound`.
unfoldable pub push_digit : ℕ → ℕ → ℕ → Option ℕ
push_digit bound n c =
    if is_digit c
    then (if ltb (n * 10 + (c - b'0')) bound then some (n * 10 + (c - b'0')) else none)
    else none

unfoldable pub parse_digits : ℕ → ℕ → Text → Option ℕ
parse_digits bound n [] = some n
parse_digits bound n (c ∷ cs) = elim (push_digit bound n c) [
  | none ↦ none
  | some m ↦ parse_digits bound m cs
]

-- `str::parse` into an unsigned type of `bound` values: an optional plus sign, then digits.
unfoldable pub parse_unsigned : ℕ → Text → Option ℕ
unfolding parse_digits push_digit
parse_unsigned bound [] = none
parse_unsigned bound (c ∷ []) = parse_digits bound 0 (c ∷ [])
parse_unsigned bound (c ∷ d ∷ cs) =
    if c == b'+' then parse_digits bound 0 (d ∷ cs) else parse_digits bound 0 (c ∷ d ∷ cs)

abbrev pub u16_bound : ℕ
u16_bound = 2 ^ 16

abbrev pub u64_bound : ℕ
u64_bound = 2 ^ 64

abbrev pub parse_u16 : Text → Option ℕ
parse_u16 = parse_unsigned u16_bound

abbrev pub parse_u64 : Text → Option ℕ
parse_u64 = parse_unsigned u64_bound

print : ℕ → ℕ → Text
print zero n = []
print (suc fuel) n =
    let higher = print fuel (n / 10) in
    if ltb n 10 then (b'0' + n) ∷ [] else higher ++ (b'0' + n % 10) ∷ []

-- `format!("{}", n)`; a number has fewer digits than n + 1.
unfoldable pub to_decimal : ℕ → Text
unfolding print
to_decimal n = print (suc n) n

-- One more digit at the end.
push_last : ℕ → Option ℕ → ℕ → Option ℕ
push_last bound none d = none
push_last bound (some n) d = push_digit bound n d

parse_digits-concat :
    (bound n : ℕ) (cs : Text) (d : ℕ)
    → parse_digits bound n (cs ++ d ∷ []) ≡ push_last bound (parse_digits bound n cs) d
unfolding parse_digits push_last
parse_digits-concat bound n [] d = elim (Option-cases (push_digit bound n d)) [
  | inl e ↦ rw (e, parse_digits) refl
  | inr (m, e) ↦ rw (e, parse_digits) refl
]
parse_digits-concat bound n (c ∷ cs) d = elim (Option-cases (push_digit bound n c)) [
  | inl e ↦ rw (e, parse_digits) refl
  | inr (m, e) ↦ rw (e, parse_digits) (parse_digits-concat bound m cs d)
]

push_digit_lem :
    (bound n d : ℕ)
    → d < 10
    → n * 10 + d < bound
    → push_digit bound n (b'0' + d) ≡ some (n * 10 + d)
unfolding push_digit
push_digit_lem bound n d small fits = ground arith

parse-print :
    (bound fuel n : ℕ) → n < fuel → n < bound → parse_digits bound 0 (print fuel n) ≡ some n
unfolding print
parse-print bound zero n h fits = elim h [ ]
parse-print bound (suc fuel) n h fits = elim (Bool-cases (ltb n 10)) [
  | inl small ↦
      rw (small, print)
        (rw (parse_digits-concat bound 0 [] (b'0' + n)) (
          unfold parse_digits push_last in
          (push_digit_lem bound 0 n (ltb→lt n 10 small) (omega arith) ∙ ap some (omega arith))))
  | inr large ↦
      rw (large, print)
        (rw (parse_digits-concat bound 0 (print fuel (n / 10)) (b'0' + n % 10)) (
          rw (parse-print bound fuel (n / 10) (ground arith) (omega arith)) (
            unfold push_last in
            push_digit_lem bound (n / 10) (n % 10) (omega arith) (omega arith)
            ∙ ap some (omega arith))))
]

no_plus :
    (bound c : ℕ) (cs : Text) {m : ℕ} → parse_digits bound 0 (c ∷ cs) ≡ some m → (c == b'+') ≡ false
unfolding parse_digits push_digit
no_plus bound c cs h = ground arith

parse_unsigned_of_digits :
    (bound : ℕ) (t : Text) {m : ℕ}
    → t ≢ []
    → parse_digits bound 0 t ≡ some m
    → parse_unsigned bound t ≡ some m
unfolding parse_unsigned
parse_unsigned_of_digits bound [] ne h = absurd (ne refl)
parse_unsigned_of_digits bound (c ∷ []) ne h = h
parse_unsigned_of_digits bound (c ∷ d ∷ cs) ne h = rw (no_plus bound c (d ∷ cs) h) h

print-ne-nil : (fuel n : ℕ) → print (suc fuel) n ≢ []
unfolding print
print-ne-nil fuel n = ground (arith, concat-ne-nil (b'0' + n % 10) (print fuel (n / 10)))

-- Reading a printed number back gives the number, if it fits.
pub parse_unsigned-to_decimal :
    (bound n : ℕ) → n < bound → parse_unsigned bound (to_decimal n) ≡ some n
unfolding to_decimal
parse_unsigned-to_decimal bound n fits =
    parse_unsigned_of_digits bound (print (suc n) n) (print-ne-nil n n)
      (parse-print bound (suc n) n (omega arith) fits)

-- No two numbers print alike.
pub to_decimal-injective : (a b : ℕ) → to_decimal a ≡ to_decimal b → a ≡ b
to_decimal-injective a b e = cc (
  parse_unsigned-to_decimal (a + b + 1) a (omega arith),
  parse_unsigned-to_decimal (a + b + 1) b (omega arith),
  ap (parse_unsigned (a + b + 1)) e,
)

print_digits : (fuel n : ℕ) → All (λ c. is_digit c ≡ true) (print fuel n)
unfolding print
print_digits zero n = tt
print_digits (suc fuel) n = elim (Bool-cases (ltb n 10)) [
  | inl small ↦ rw (small, print) (ground arith, tt)
  | inr large ↦
      rw (large, print)
        (All-append (λ c. is_digit c ≡ true) (print fuel (n / 10)) ((b'0' + n % 10) ∷ [])
          (print_digits fuel (n / 10)) (ground arith, tt))
]

-- A printed number is one digit or more.
pub to_decimal_digits : (n : ℕ) → All (λ c. is_digit c ≡ true) (to_decimal n) × (to_decimal n ≢ [])
unfolding to_decimal
to_decimal_digits n = (print_digits (suc n) n, print-ne-nil n n)
