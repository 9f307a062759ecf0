-- ===== src/Pty/Keys.antt =====
-- `process_special_keys` of crates/tttt-pty/src/keys.rs, on the bytes of the text. The index `i` is
-- the suffix that is still to be read, and the loop is a recursion on fuel.
pub mod Sequences
pub mod Laws
use tttt.Base.{
  ℕ, zero, suc, ◌+◌, ◌-◌, ◌*◌, Bool, true, false, ◌&&◌, ◌||◌, Option, none, some, List, [], ◌∷◌,
  ◌++◌, leb, ◌==◌, if◌then◌else◌, length,
}
use tttt.Base.Text.{Text}
use Sequences.{bracket_sequence}

-- What one round of the loop pushes, and the bytes that it leaves.
abbrev pub Round : Type 0
Round = List ℕ × Text

abbrev pub is_upper : ℕ → Bool
is_upper c = leb b'A' c && leb c b'Z'

abbrev pub is_lower : ℕ → Bool
is_lower c = leb b'a' c && leb c b'z'

-- `^C` and the like
unfoldable pub control : Text → Option Round
control [] = none
control (next ∷ rest) =
    if is_upper next
    then some ((next - b'A' + 1) ∷ [], rest)
    else if is_lower next
    then some ((next - b'a' + 1) ∷ [], rest)
    else none

-- `is_ascii_hexdigit`, with the digit's value
abbrev hex_digit : ℕ → Option ℕ
hex_digit c =
    if leb b'0' c && leb c b'9'
    then some (c - b'0')
    else if leb b'A' c && leb c b'F'
    then some (c - b'A' + 10)
    else if leb b'a' c && leb c b'f'
    then some (c - b'a' + 10)
    else none

abbrev hex_byte : Option ℕ → Option ℕ → Text → Option Round
hex_byte (some a) (some b) rest = some ((a * 16 + b) ∷ [], rest)
hex_byte _ _ rest = none

-- `\xNN`, behind the `x`
unfoldable pub hex_escape : Text → Option Round
hex_escape (a ∷ b ∷ rest) = hex_byte (hex_digit a) (hex_digit b) rest
hex_escape _ = none

-- `\n`, `\r`, `\t` and `\xNN`, behind the backslash
unfoldable pub backslash : Text → Option Round
unfolding hex_escape
backslash [] = none
backslash (next ∷ rest) =
    if next == b'n'
    then some (b'\n' ∷ [], rest)
    else if next == b'r'
    then some (b'\r' ∷ [], rest)
    else if next == b't'
    then some (b'\t' ∷ [], rest)
    else if next == b'x'
    then hex_escape rest
    else none

-- The text up to the first `]`, and the text behind it.
unfoldable pub until_bracket : Text → Option (Text × Text)
until_bracket [] = none
until_bracket (c ∷ cs) = elim (c == b']') [
  | true ↦ some ([], cs)
  | false ↦ elim (until_bracket cs) [ none ↦ none | some (tag, rest) ↦ some (c ∷ tag, rest) ]
]

abbrev emit : Option (List ℕ) → Text → Option Round
emit none rest = none
emit (some seq) rest = some (seq, rest)

-- `[TAG]`, behind the bracket
unfoldable pub bracket : Text → Option Round
bracket rest = elim (until_bracket rest) [
  | none ↦ none
  | some (tag, rest') ↦ emit (bracket_sequence tag) rest'
]

unfoldable pub special : ℕ → Text → Option Round
special c rest =
    if c == b'^'
    then control rest
    else if c == b'\\'
    then backslash rest
    else if c == b'['
    then bracket rest
    else none

-- One round: a special sequence at the front, or the byte itself.
unfoldable pub round : ℕ → Text → Round
round c rest = elim (special c rest) [ none ↦ (c ∷ [], rest) | some r ↦ r ]

unfoldable pub key_loop : ℕ → Text → List ℕ
key_loop zero s = []
key_loop (suc fuel) [] = []
key_loop (suc fuel) (c ∷ cs) = let (out, rest) = round c cs in out ++ key_loop fuel rest

-- A round takes a byte at least.
unfoldable pub process_special_keys : Text → List ℕ
process_special_keys s = key_loop (length s) s
