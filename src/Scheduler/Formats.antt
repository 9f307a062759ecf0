-- ===== src/Scheduler/Formats.antt =====
-- The compact and the shorthand formats of an interval, for every number.
use tttt.Base.{
  ℕ, ◌<◌, ◌≡◌, ◌≢◌, refl, true, false, none, some, [], ◌∷◌, ◌++◌, ◌==◌, arith, ap, All, ok,
}
use tttt.Base.Text.{Text, codes}
use tttt.Base.Decimal.{
  to_decimal, to_decimal_digits, is_digit, parse_unsigned-to_decimal, u64_bound,
}
use tttt.Base.Space.{
  is_whitespace, trim, trim_start_matches, trim_end_matches-concat, strip_suffix-concat,
  strip_suffix-concat_ne,
}
use tttt.Scheduler.Interval.{parse_interval, wrapping_mul, formats, compact}

digit_not_space : (c : ℕ) → is_digit c ≡ true → is_whitespace c ≡ false
unfolding is_whitespace
digit_not_space c h = ground arith

trim_start_of_digits :
    (s t : Text)
    → All (λ c. is_digit c ≡ true) s
    → s ≢ []
    → trim_start_matches is_whitespace (s ++ t) ≡ s ++ t
unfolding trim_start_matches
trim_start_of_digits [] t h ne = absurd (ne refl)
trim_start_of_digits (c ∷ s) t h ne = rw (digit_not_space c h.0)

trim_number :
    (n c : ℕ) → is_whitespace c ≡ false → trim (to_decimal n ++ c ∷ []) ≡ to_decimal n ++ c ∷ []
unfolding trim
trim_number n c h =
    rw
      (trim_start_of_digits (to_decimal n) (c ∷ []) (to_decimal_digits n).0 (to_decimal_digits n).1)
      (trim_end_matches-concat is_whitespace (to_decimal n) c h)

compact_hit :
    (suffix unit n : ℕ)
    → n < u64_bound
    → compact suffix unit (to_decimal n ++ suffix ∷ []) ≡ some (wrapping_mul n unit)
unfolding compact
compact_hit suffix unit n fits =
    rw (strip_suffix-concat suffix (to_decimal n)) (rw (parse_unsigned-to_decimal u64_bound n fits))

compact_miss :
    (suffix unit c n : ℕ)
    → (c == suffix) ≡ false
    → compact suffix unit (to_decimal n ++ c ∷ []) ≡ none
unfolding compact
compact_miss suffix unit c n ne = rw (strip_suffix-concat_ne suffix c (to_decimal n) ne)

-- A number below 2^64 and a unit: its seconds, the product cut to 64 bits.
pub parse_interval_compact :
    (n : ℕ)
    → n < u64_bound
    → (parse_interval (to_decimal n ++ codes "s") ≡ ok n)
      × (parse_interval (to_decimal n ++ codes "m") ≡ ok (wrapping_mul n 60))
      × (parse_interval (to_decimal n ++ codes "h") ≡ ok (wrapping_mul n 3600))
unfolding parse_interval formats
parse_interval_compact n fits = (
  rw (trim_number n b's' (unfold is_whitespace in refl))
      (rw (compact_hit b's' 1 n fits) (ap ok (omega arith))),
  rw (trim_number n b'm' (unfold is_whitespace in refl))
      (rw (compact_miss b's' 1 b'm' n refl) (rw (compact_hit b'm' 60 n fits))),
  rw (trim_number n b'h' (unfold is_whitespace in refl)) (
      rw (compact_miss b's' 1 b'h' n refl)
        (rw (compact_miss b'm' 60 b'h' n refl) (rw (compact_hit b'h' 3600 n fits)))),
)
