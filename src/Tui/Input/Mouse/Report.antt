-- ===== src/Tui/Input/Mouse/Report.antt =====
-- A terminal's mouse report is read as the event that it encodes.
use tttt.Base.{
  ℕ, ◌+◌, ◌-◌, ◌<◌, ◌≡◌, refl, true, false, some, List, [], ◌∷◌, ◌++◌, ◌==◌, length, arith, All,
  All-append,
}
use tttt.Base.Text.{Text}
use tttt.Base.Map.{All_map}
use tttt.Base.Decimal.{
  to_decimal, to_decimal_digits, is_digit, u16_bound, parse_unsigned-to_decimal,
}
use tttt.Tui.Input.Mouse.{
  decode, is_terminator, until_terminator, split_semicolon, parse_params, parse_sgr_mouse,
}

pub until_terminator-append :
    (s : List ℕ) (t : ℕ) (rest : List ℕ)
    → All (λ c. is_terminator c ≡ false) s
    → is_terminator t ≡ true
    → until_terminator (s ++ t ∷ rest) ≡ some (s, t)
unfolding until_terminator
until_terminator-append [] t rest h k = ground arith
until_terminator-append (c ∷ s) t rest h k =
    ground (arith, h.0, until_terminator-append s t rest h.1 k)

split_semicolon-append :
    (s rest : Text)
    → All (λ c. (c == b';') ≡ false) s
    → split_semicolon (s ++ b';' ∷ rest) ≡ some (s, rest)
unfolding split_semicolon
split_semicolon-append [] rest h = refl
split_semicolon-append (c ∷ s) rest h = ground (arith, h.0, split_semicolon-append s rest h.1)

-- The parameters of a report.
abbrev pub params_text : ℕ → ℕ → ℕ → Text
params_text pb px py = to_decimal pb ++ (b';' ∷ (to_decimal px ++ (b';' ∷ to_decimal py)))

digits_no_semicolon : (n : ℕ) → All (λ c. (c == b';') ≡ false) (to_decimal n)
digits_no_semicolon n =
    All_map (λ c. is_digit c ≡ true) (λ c. (c == b';') ≡ false) (to_decimal n) (λ c h. ground arith)
      (to_decimal_digits n).0

digits_no_terminator : (n : ℕ) → All (λ c. is_terminator c ≡ false) (to_decimal n)
digits_no_terminator n =
    All_map (λ c. is_digit c ≡ true) (λ c. is_terminator c ≡ false) (to_decimal n)
      (λ c h. ground arith) (to_decimal_digits n).0

params_no_terminator : (pb px py : ℕ) → All (λ c. is_terminator c ≡ false) (params_text pb px py)
params_no_terminator pb px py =
    All-append (λ c. is_terminator c ≡ false) (to_decimal pb) _ (digits_no_terminator pb)
      (
        refl,
        All-append (λ c. is_terminator c ≡ false) (to_decimal px) _ (digits_no_terminator px)
            (refl, digits_no_terminator py),
      )

parse_params_text :
    (pb px py : ℕ)
    → pb < u16_bound
    → px < u16_bound
    → py < u16_bound
    → parse_params (params_text pb px py) ≡ some (pb, px, py)
unfolding parse_params
parse_params_text pb px py a b c =
    rw (split_semicolon-append (to_decimal pb) _ (digits_no_semicolon pb)) (
      rw (parse_unsigned-to_decimal u16_bound pb a) (
        rw (split_semicolon-append (to_decimal px) _ (digits_no_semicolon px)) (
          rw (parse_unsigned-to_decimal u16_bound px b)
            (rw (parse_unsigned-to_decimal u16_bound py c)))))

-- A report of three numbers below 2^16 and an `M` or an `m`, whatever follows it: the event that
-- they encode, the column and the row counted from zero, and the length of the report.
pub parse_sgr_mouse_report :
    (pb px py t : ℕ) (rest : List ℕ)
    → pb < u16_bound
    → px < u16_bound
    → py < u16_bound
    → is_terminator t ≡ true
    → parse_sgr_mouse (0x1b ∷ b'[' ∷ b'<' ∷ (params_text pb px py ++ t ∷ rest))
      ≡ some (decode (t == b'm') pb (px - 1) (py - 1), 3 + length (params_text pb px py) + 1)
unfolding parse_sgr_mouse
parse_sgr_mouse_report pb px py t rest a b c end =
    rw (until_terminator-append (params_text pb px py) t rest (params_no_terminator pb px py) end)
      (rw (parse_params_text pb px py a b c))
