-- ===== src/Tui/Protocol.antt =====
-- The messages and the framing of crates/tttt-tui/src/protocol.rs. JSON is a parameter.
use tttt.Base.{
  ℕ, zero, suc, ◌+◌, ◌*◌, ◌/◌, ◌%◌, ◌^◌, ◌<◌, ◌≡◌, refl, Bool, true, false, Option, none, some,
  List, [], ◌∷◌, ◌++◌, ltb, if◌then◌else◌, length, take, arith, length-append, length-take,
  take-append, lt→ltb, ap, sym, append_assoc, ◌∙◌,
}
use tttt.Base.Text.{Text}

pub record SessionInfo : Type 0 where
  pub id : Text
  pub command : Text
  pub status : Text

pub data ServerMsg : Type 0 where
  -- the screen's bytes, and the cursor's row and column
  screen_update : List ℕ → ℕ → ℕ → ServerMsg
  session_list : List SessionInfo → Option Text → ServerMsg
  goodbye : ServerMsg
  -- columns and rows
  window_size : ℕ → ℕ → ServerMsg
  -- the new session, or the error
  session_created : Option Text → Option Text → ServerMsg
  session_killed : Text → Bool → Option Text → ServerMsg

pub data ClientMsg : Type 0 where
  key_input : List ℕ → ClientMsg
  switch_session : Text → ClientMsg
  resize : ℕ → ℕ → ClientMsg
  detach : ClientMsg
  -- the command, its arguments, columns and rows
  create_session : Text → List Text → ℕ → ℕ → ClientMsg
  kill_session : Text → ClientMsg

abbrev pub u32_bound : ℕ
u32_bound = 2 ^ 32

-- `u32::to_be_bytes`
unfoldable pub to_be_bytes : ℕ → List ℕ
to_be_bytes n = n / 2 ^ 24 % 256 ∷ n / 2 ^ 16 % 256 ∷ n / 2 ^ 8 % 256 ∷ n % 256 ∷ []

abbrev from_be_bytes : ℕ → ℕ → ℕ → ℕ → ℕ
from_be_bytes a b c d = a * 2 ^ 24 + b * 2 ^ 16 + c * 2 ^ 8 + d

-- The serialiser and the parser of the messages of one side.
pub record Json (T : Type 0) : Type 0 where
  pub to_vec : T → List ℕ
  pub from_slice : List ℕ → Option T

module _ {T : Type 0} (json : Json T) where
  -- The length is cut to 32 bits.
  unfoldable pub encode_message : T → List ℕ
  encode_message msg = let text = json.to_vec msg in to_be_bytes (length text % u32_bound) ++ text

  abbrev decoded : ℕ → Option T → Option (T × ℕ)
  decoded len none = none
  decoded len (some msg) = some (msg, 4 + len)

  abbrev decode_body : ℕ → List ℕ → Option (T × ℕ)
  decode_body len body =
      if ltb (length body) len then none else decoded len (json.from_slice (take len body))

  unfoldable pub decode_message : List ℕ → Option (T × ℕ)
  decode_message (a ∷ b ∷ c ∷ d ∷ body) = decode_body (from_be_bytes a b c d) body
  decode_message _ = none

  decode_header :
      (n : ℕ) (body : List ℕ)
      → n < u32_bound
      → decode_message (to_be_bytes n ++ body) ≡ decode_body n body
  unfolding decode_message to_be_bytes
  decode_header n body fits = ap (λ k. decode_body k body) (omega arith)

  decode_body-append :
      (text rest : List ℕ)
      → decode_body (length text) (text ++ rest) ≡ decoded (length text) (json.from_slice text)
  decode_body-append text rest =
      let enough : ltb (length (text ++ rest)) (length text) ≡ false =
        ground (arith, length-append text rest) in
      rw (enough, take-append text rest)

  decode_frame :
      (text rest : List ℕ)
      → length text < u32_bound
      → decode_message (to_be_bytes (length text) ++ (text ++ rest))
        ≡ decoded (length text) (json.from_slice text)
  decode_frame text rest fits =
      decode_header (length text) (text ++ rest) fits ∙ decode_body-append text rest

  encode_frame :
      (msg : T)
      → length (json.to_vec msg) < u32_bound
      → encode_message msg ≡ to_be_bytes (length (json.to_vec msg)) ++ json.to_vec msg
  unfolding encode_message
  encode_frame msg fits = ap (λ n. to_be_bytes n ++ json.to_vec msg) (omega arith)

  length-to_be_bytes : (n : ℕ) (text : List ℕ) → length (to_be_bytes n ++ text) ≡ 4 + length text
  unfolding to_be_bytes
  length-to_be_bytes n text = omega arith

  decode-take_frame :
      (n k : ℕ) (text : List ℕ)
      → k < u32_bound
      → length text ≡ k
      → n < 4 + k
      → decode_message (take n (to_be_bytes k ++ text)) ≡ none
  unfolding decode_message to_be_bytes
  decode-take_frame zero k text fits full short = refl
  decode-take_frame (suc zero) k text fits full short = refl
  decode-take_frame (suc (suc zero)) k text fits full short = refl
  decode-take_frame (suc (suc (suc zero))) k text fits full short = refl
  decode-take_frame (suc (suc (suc (suc n)))) k text fits full short =
      let missing : ltb (length (take n text))
            (from_be_bytes (k / 2 ^ 24 % 256) (k / 2 ^ 16 % 256) (k / 2 ^ 8 % 256) (k % 256))
          ≡ true =
        lt→ltb _ _ (omega (arith, length-take n text)) in
      rw missing

  -- A message whose JSON is shorter than 2^32 bytes and is read back by the parser is decoded from
  -- its frame, whatever follows, and takes the bytes of the frame.
  pub decode-encode :
      (msg : T) (rest : List ℕ)
      → json.from_slice (json.to_vec msg) ≡ some msg
      → length (json.to_vec msg) < u32_bound
      → decode_message (encode_message msg ++ rest) ≡ some (msg, length (encode_message msg))
  decode-encode msg rest back fits = rw (encode_frame msg fits) (
      rw (append_assoc (to_be_bytes (length (json.to_vec msg))) (json.to_vec msg) rest) (
        decode_frame (json.to_vec msg) rest fits
        ∙ rw back (ap (λ n. some (msg, n)) (sym (length-to_be_bytes _ (json.to_vec msg))))))

  -- Every proper beginning of a frame whose JSON is shorter than 2^32 bytes is refused as
  -- incomplete.
  pub decode-take_encode :
      (msg : T) (n : ℕ)
      → length (json.to_vec msg) < u32_bound
      → n < length (encode_message msg)
      → decode_message (take n (encode_message msg)) ≡ none
  decode-take_encode msg n fits short = rw (encode_frame msg fits) (
      decode-take_frame n (length (json.to_vec msg)) (json.to_vec msg) fits refl (
        omega (
          arith,
          ap length (encode_frame msg fits),
          length-to_be_bytes (length (json.to_vec msg)) (json.to_vec msg),
        )))

  -- A frame of fewer than 2^32 bytes whose body the parser refuses is refused whatever follows it,
  -- just as an incomplete one: no number of bytes to skip is returned.
  pub decode_malformed :
      (body rest : List ℕ)
      → length body < u32_bound
      → json.from_slice body ≡ none
      → decode_message (to_be_bytes (length body) ++ (body ++ rest)) ≡ none
  decode_malformed body rest fits bad = decode_frame body rest fits ∙ rw bad
