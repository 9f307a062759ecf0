-- ===== src/Tui/Input/Mouse.antt =====
-- `parse_sgr_mouse` of crates/tttt-tui/src/input.rs.
pub mod Report
use tttt.Base.{
  ℕ, zero, suc, ◌+◌, ◌-◌, ◌%◌, ◌/◌, Bool, true, false, not, ◌&&◌, ◌||◌, Option, none, some, List,
  [], ◌∷◌, ◌++◌, ◌==◌, if◌then◌else◌, length,
}
use tttt.Base.Text.{Text}
use tttt.Base.Decimal.{parse_u16}

pub data MouseButton : Type 0 where
  left middle right : MouseButton

pub record MouseModifiers : Type 0 where
  pub ctrl : Bool
  pub shift : Bool
  pub alt : Bool

-- The mouse events among the input events; columns and rows count from zero.
pub data MouseEvent : Type 0 where
  press : MouseButton → MouseModifiers → ℕ → ℕ → MouseEvent
  drag : MouseButton → ℕ → ℕ → MouseEvent
  release scroll_up scroll_down : ℕ → ℕ → MouseEvent

-- `pb & (1 << k) != 0`, for `power = 1 << k`
abbrev pub has_bit : ℕ → ℕ → Bool
has_bit power pb = (pb / power) % 2 == 1

unfoldable pub from_pb : ℕ → MouseModifiers
from_pb pb = record { shift = has_bit 4 pb; alt = has_bit 8 pb; ctrl = has_bit 16 pb }

unfoldable pub button_of : ℕ → MouseButton
button_of bits = if bits == 1 then middle else if bits == 2 then right else left

unfoldable pub decode : Bool → ℕ → ℕ → ℕ → MouseEvent
decode is_release pb col row =
    if has_bit 64 pb
    then (if pb % 4 == 0 then scroll_up col row else scroll_down col row)
    else if is_release
    then release col row
    else if has_bit 32 pb
    then drag (button_of (pb % 4)) col row
    else press (button_of (pb % 4)) (from_pb pb) col row

abbrev pub is_terminator : ℕ → Bool
is_terminator c = c == b'M' || c == b'm'

-- The bytes before the first `M` or `m`, and that byte.
unfoldable pub until_terminator : List ℕ → Option (List ℕ × ℕ)
until_terminator [] = none
until_terminator (c ∷ cs) =
    let later = until_terminator cs in
    if is_terminator c
    then some ([], c)
    else elim later [ none ↦ none | some (params, t) ↦ some (c ∷ params, t) ]

-- The part before the first `;`, and the part behind it.
unfoldable pub split_semicolon : Text → Option (Text × Text)
split_semicolon [] = none
split_semicolon (c ∷ cs) =
    let later = split_semicolon cs in
    if c == b';'
    then some ([], cs)
    else elim later [ none ↦ none | some (part, rest) ↦ some (c ∷ part, rest) ]

infixl 5 ◌>>=◌
abbrev ◌>>=◌ {ℓ κ} : {A : Type ℓ} {B : Type κ} → Option A → (A → Option B) → Option B
none >>= f = none
some a >>= f = f a

-- `splitn(3, ';')` and the three numbers. Bytes that are no UTF-8 are no digits either.
unfoldable pub parse_params : Text → Option (ℕ × ℕ × ℕ)
parse_params params = do
  first ← split_semicolon params
  pb ← parse_u16 first.0
  second ← split_semicolon first.1
  px ← parse_u16 second.0
  py ← parse_u16 second.1
  some (pb, px, py)

abbrev parsed : Option (ℕ × ℕ × ℕ) → List ℕ → ℕ → Option (MouseEvent × ℕ)
parsed none params t = none
parsed (some (pb, px, py)) params t =
    some (decode (t == b'm') pb (px - 1) (py - 1), 3 + length params + 1)

abbrev finish : Option (List ℕ × ℕ) → Option (MouseEvent × ℕ)
finish none = none
finish (some (params, t)) = parsed (parse_params params) params t

-- The event and the number of bytes that it took.
unfoldable pub parse_sgr_mouse : List ℕ → Option (MouseEvent × ℕ)
parse_sgr_mouse (a ∷ b ∷ c ∷ rest) =
    if a == 0x1b && b == b'[' && c == b'<' then finish (until_terminator rest) else none
parse_sgr_mouse _ = none
