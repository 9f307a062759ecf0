-- ===== src/Log/Base64.antt =====
-- `base64_bytes` of crates/tttt-log/src/event.rs. Shifts of bytes are products, and `|` of parts
-- that do not overlap is their sum.
use tttt.Base.{
  ℕ, ◌+◌, ◌-◌, ◌*◌, ◌/◌, ◌%◌, ◌^◌, ◌<◌, ◌≡◌, refl, false, ◌&&◌, List, [], ◌∷◌, ◌++◌, ltb, leb, ◌==◌,
  if◌then◌else◌, Result, ok, err, ◌>>=◌, All, arith, ap, ◌∙◌,
}
use tttt.Base.Text.{Text}

-- The character of a number below 64.
unfoldable pub char_of : ℕ → ℕ
char_of v =
    if ltb v 26
    then v + b'A'
    else if ltb v 52
    then v - 26 + b'a'
    else if ltb v 62
    then v - 52 + b'0'
    else if v == 62
    then b'+'
    else b'/'

abbrev pub triple : ℕ → ℕ → ℕ → ℕ
triple b0 b1 b2 = b0 * 2 ^ 16 + b1 * 2 ^ 8 + b2

abbrev first_chars : ℕ → Text → Text
first_chars t rest = char_of (t / 2 ^ 18 % 64) ∷ char_of (t / 2 ^ 12 % 64) ∷ rest

-- By chunks of three bytes, the last of which may be shorter.
unfoldable pub encode : List ℕ → Text
encode [] = []
encode (b0 ∷ []) = first_chars (triple b0 0 0) (b'=' ∷ b'=' ∷ [])
encode (b0 ∷ b1 ∷ []) =
    let t = triple b0 b1 0 in first_chars t (char_of (t / 2 ^ 6 % 64) ∷ b'=' ∷ [])
encode (b0 ∷ b1 ∷ b2 ∷ rest) =
    let t = triple b0 b1 b2 in
    first_chars t (char_of (t / 2 ^ 6 % 64) ∷ char_of (t % 64) ∷ encode rest)

pub data Base64Error : Type 0 where
  invalid_char : ℕ → Base64Error

unfoldable pub val : ℕ → Result Base64Error ℕ
val c =
    if leb b'A' c && leb c b'Z'
    then ok (c - b'A')
    else if leb b'a' c && leb c b'z'
    then ok (c - b'a' + 26)
    else if leb b'0' c && leb c b'9'
    then ok (c - b'0' + 52)
    else if c == b'+'
    then ok 62
    else if c == b'/'
    then ok 63
    else if c == b'='
    then ok 0
    else err (invalid_char c)

-- The bytes of a chunk, fewer where its third or its fourth character is a padding.
abbrev pub chunk_bytes : ℕ → ℕ → ℕ → List ℕ
chunk_bytes t c d =
    (t / 2 ^ 16 % 256 ∷ (if c == b'=' then [] else t / 2 ^ 8 % 256 ∷ []))
    ++ (if d == b'=' then [] else t % 256 ∷ [])

-- A last chunk of less than four characters is dropped.
unfoldable pub decode : Text → Result Base64Error (List ℕ)
decode (c0 ∷ c1 ∷ c2 ∷ c3 ∷ rest) = do
  a ← val c0
  b ← val c1
  c ← val c2
  d ← val c3
  later ← decode rest
  ok (chunk_bytes (a * 2 ^ 18 + b * 2 ^ 12 + c * 2 ^ 6 + d) c2 c3 ++ later)
decode _ = ok []

val-char_of : (v : ℕ) → v < 64 → val (char_of v) ≡ ok v
unfolding val char_of
val-char_of v h = ground arith

char_of_no_padding : (v : ℕ) → v < 64 → (char_of v == b'=') ≡ false
unfolding char_of
char_of_no_padding v h = ground arith

abbrev pub IsByte : ℕ → Type 0
IsByte b = b < 256

abbrev join : ℕ → ℕ → ℕ → ℕ → ℕ
join a b c d = a * 2 ^ 18 + b * 2 ^ 12 + c * 2 ^ 6 + d

decode_chunk :
    (c0 c1 c2 c3 : ℕ) (rest : Text) {a b c d : ℕ} {later : List ℕ}
    → val c0 ≡ ok a
    → val c1 ≡ ok b
    → val c2 ≡ ok c
    → val c3 ≡ ok d
    → decode rest ≡ ok later
    → decode (c0 ∷ c1 ∷ c2 ∷ c3 ∷ rest) ≡ ok (chunk_bytes (join a b c d) c2 c3 ++ later)
unfolding decode
decode_chunk c0 c1 c2 c3 rest h0 h1 h2 h3 h = rw (h0, h1, h2, h3, h)

join_split :
    (t : ℕ) → t < 2 ^ 24 → join (t / 2 ^ 18 % 64) (t / 2 ^ 12 % 64) (t / 2 ^ 6 % 64) (t % 64) ≡ t
join_split t h = omega arith

triple_bound : (a b c : ℕ) → a < 256 → b < 256 → c < 256 → triple a b c < 2 ^ 24
triple_bound a b c ha hb hc = omega arith

-- The bytes of the triple.
triple_bytes :
    (a b c : ℕ)
    → a < 256
    → b < 256
    → c < 256
    → (triple a b c / 2 ^ 16 % 256 ≡ a)
      × (triple a b c / 2 ^ 8 % 256 ≡ b)
      × (triple a b c % 256 ≡ c)
triple_bytes a b c ha hb hc = (omega arith, omega arith, omega arith)

padding : val b'=' ≡ ok 0
unfolding val
padding = refl

digit : (n : ℕ) → val (char_of (n % 64)) ≡ ok (n % 64)
digit n = val-char_of (n % 64) (omega arith)

chunk_three :
    (a b c x y : ℕ) (later : List ℕ)
    → a < 256
    → b < 256
    → c < 256
    → (x == b'=') ≡ false
    → (y == b'=') ≡ false
    → chunk_bytes (triple a b c) x y ++ later ≡ a ∷ b ∷ c ∷ later
chunk_three a b c x y later ha hb hc hx hy =
    let h = triple_bytes a b c ha hb hc in rw (hx, hy, h.0, h.1, h.2)

decode_empty : decode [] ≡ ok []
unfolding decode
decode_empty = refl

join_one :
    (a : ℕ) → a < 256 → let t = triple a 0 0 in join (t / 2 ^ 18 % 64) (t / 2 ^ 12 % 64) 0 0 ≡ t
join_one a h = omega arith

join_two :
    (a b : ℕ)
    → a < 256
    → b < 256
    → let t = triple a b 0 in join (t / 2 ^ 18 % 64) (t / 2 ^ 12 % 64) (t / 2 ^ 6 % 64) 0 ≡ t
join_two a b ha hb = omega arith

-- Bytes are read back from their base64 text.
pub decode-encode_bytes : (bytes : List ℕ) → All IsByte bytes → decode (encode bytes) ≡ ok bytes
unfolding encode
decode-encode_bytes [] h = decode_empty
decode-encode_bytes (b0 ∷ []) h =
    let bytes = triple_bytes b0 0 0 h.0 (omega arith) (omega arith) in
    decode_chunk _ _ b'=' b'=' [] (digit _) (digit _) padding padding decode_empty
    ∙ ap ok (rw (join_one b0 h.0, bytes.0))
decode-encode_bytes (b0 ∷ b1 ∷ []) h =
    let bytes = triple_bytes b0 b1 0 h.0 h.1.0 (omega arith) in
    let t = triple b0 b1 0 in
    decode_chunk _ _ _ b'=' [] (digit _) (digit _) (digit _) padding decode_empty
    ∙ ap ok (
        rw (
          join_two b0 b1 h.0 h.1.0,
          bytes.0,
          bytes.1,
          char_of_no_padding (t / 2 ^ 6 % 64) (omega arith),
        ))
decode-encode_bytes (b0 ∷ b1 ∷ b2 ∷ rest) h =
    let t = triple b0 b1 b2 in
    decode_chunk _ _ _ _ (encode rest) (digit _) (digit _) (digit _) (digit t)
      (decode-encode_bytes rest h.1.1.1)
    ∙ ap ok (
        rw (join_split t (triple_bound b0 b1 b2 h.0 h.1.0 h.1.1.0)) (
          chunk_three b0 b1 b2 _ _ rest h.0 h.1.0 h.1.1.0
            (char_of_no_padding (t / 2 ^ 6 % 64) (omega arith))
            (char_of_no_padding (t % 64) (omega arith))))
