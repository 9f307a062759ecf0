-- ===== src/Web/Auth.antt =====
-- src/web/auth.rs. Texts are code points. The decoders, the hashes and the comparison in constant
-- time are parameters, and a hash fed in parts is the hash of the parts together. A query is an
-- association list, and the `Authorization` header is `none` where it is missing or no plain text.
pub mod Granted
pub mod Apr1
mod Samples
use tttt.Base.{
  ℕ, zero, suc, ◌+◌, ◌-◌, ◌*◌, ◌/◌, ◌%◌, ◌^◌, Bool, true, false, not, ◌&&◌, ◌||◌, Option, none,
  some, List, [], ◌∷◌, ◌++◌, ltb, leb, ◌==◌, if◌then◌else◌, length, take, is_empty, Result, ok, err,
  min, get_elem?,
}
use tttt.Base.Text.{Text, codes, text_eq, strip_prefix}
use tttt.Base.Space.{trim}
use tttt.Base.Map

pub record Crypto : Type 0 where
  -- the UTF-8 bytes of a text, and back
  pub as_bytes : Text → List ℕ
  pub from_utf8 : List ℕ → Option Text
  -- equality of slices of the same length
  pub ct_eq : List ℕ → List ℕ → Bool
  pub base64_decode : Text → Option (List ℕ)
  pub sha1 : List ℕ → List ℕ
  pub md5 : List ℕ → List ℕ
  -- of a password and a stored hash
  pub bcrypt_verify : Text → Text → Option Bool

abbrev ahead : ℕ → Option (Text × Text) → Option (Text × Text)
ahead c none = none
ahead c (some (before, after)) = some (c ∷ before, after)

-- `split_once` by a character.
unfoldable pub split_at : ℕ → Text → Option (Text × Text)
split_at d [] = none
split_at d (c ∷ cs) = let later = ahead c (split_at d cs) in if c == d then some ([], cs) else later

abbrev drop_return : Text → Text
drop_return [] = []
drop_return (c ∷ []) = if c == b'\r' then [] else c ∷ []
drop_return (c ∷ d ∷ cs) = c ∷ drop_return (d ∷ cs)

abbrev add_line : Text → List Text → List Text
add_line [] lines = lines
add_line (c ∷ cs) lines = (c ∷ cs) ∷ lines

-- `str::lines`, of which the last needs no newline.
unfoldable pub lines_from : Text → Text → List Text
lines_from line [] = add_line line []
lines_from line (c ∷ cs) =
    let ended = drop_return line ∷ lines_from [] cs in
    let longer = lines_from (line ++ (c ∷ [])) cs in if c == b'\n' then ended else longer

pub record Htpasswd : Type 0 where
  pub entries : List (Text × Text)

abbrev starts_with : Text → Text → Bool
starts_with p s = elim (strip_prefix p s) [ none ↦ false | some rest ↦ true ]

abbrev with_entry : Option (Text × Text) → List (Text × Text) → List (Text × Text)
with_entry none rest = rest
with_entry (some e) rest = e ∷ rest

unfoldable pub parse_entries : List Text → List (Text × Text)
parse_entries [] = []
parse_entries (l ∷ ls) =
    let line = trim l in
    let rest = parse_entries ls in
    let entry = with_entry (split_at b':' line) rest in
    if is_empty line || starts_with (codes "#") line then rest else entry

-- `Htpasswd::load`, of the file's contents.
unfoldable pub load : Result Text Text → Result Text Htpasswd
load (err e) = err e
load (ok contents) =
    let entries = parse_entries (lines_from [] contents) in
    if is_empty entries
    then err (codes "htpasswd file contains no valid entries")
    else ok (record { entries = entries })

pub record Auth : Type 0 where
  pub token : Option Text
  pub htpasswd : Option Htpasswd

unfoldable pub no_auth : Auth
no_auth = record { token = none; htpasswd = none }

unfoldable pub with_htpasswd : Result Text Text → Result Text Auth
with_htpasswd file = elim (load file) [
  | err e ↦ err e
  | ok h ↦ ok (record { token = none; htpasswd = some h })
]

abbrev pub is_some {ℓ} : {A : Type ℓ} → Option A → Bool
is_some none = false
is_some (some a) = true

unfoldable pub required : Auth → Bool
required auth = is_some auth.token || is_some auth.htpasswd

unfoldable pub set_token : Text → Auth → Auth
set_token token auth = record auth { token = some token }

unfoldable pub has_htpasswd : Auth → Bool
has_htpasswd auth = is_some auth.htpasswd

-- `APR1_ALPHABET`
abbrev pub alphabet : Text
alphabet = codes "./0123456789ABCDEFGHIJKLMNOPQRSTUVWXYZabcdefghijklmnopqrstuvwxyz"

abbrev or_nul : Option ℕ → ℕ
or_nul none = 0
or_nul (some c) = c

unfoldable pub apr1_char : ℕ → ℕ
apr1_char v = or_nul (get_elem? alphabet v)

-- The closure `to64`.
unfoldable pub to64 : ℕ → ℕ → Text
to64 v zero = []
to64 v (suc n) = apr1_char (v % 64) ∷ to64 (v / 64) n

abbrev pub triple : ℕ → ℕ → ℕ → ℕ
triple a b c = a * 2 ^ 16 + b * 2 ^ 8 + c

-- `d[i]`; a digest has sixteen bytes.
abbrev pub byte_at : List ℕ → ℕ → ℕ
byte_at d i = or_nul (get_elem? d i)

unfoldable pub encode_apr1 : List ℕ → Text
encode_apr1 d =
    to64 (triple (byte_at d 0) (byte_at d 6) (byte_at d 12)) 4
    ++ (to64 (triple (byte_at d 1) (byte_at d 7) (byte_at d 13)) 4
        ++ (to64 (triple (byte_at d 2) (byte_at d 8) (byte_at d 14)) 4
            ++ (to64 (triple (byte_at d 3) (byte_at d 9) (byte_at d 15)) 4
                ++ (to64 (triple (byte_at d 4) (byte_at d 10) (byte_at d 5)) 4
                    ++ to64 (byte_at d 11) 2))))

-- The first loop: as many bytes as the password has, in chunks of the digest.
unfoldable pub odd_mixture : ℕ → ℕ → List ℕ → List ℕ
odd_mixture zero pl d1 = []
odd_mixture (suc rounds) pl d1 =
    let chunk = if leb 16 pl then 16 else pl in
    let rest = odd_mixture rounds (pl - chunk) d1 in if pl == 0 then [] else take chunk d1 ++ rest

-- The second: a byte for each bit of the password's length.
unfoldable pub even_mixture : ℕ → ℕ → List ℕ → List ℕ
even_mixture zero i pw = []
even_mixture (suc rounds) i pw =
    let rest = even_mixture rounds (i / 2) pw in
    let byte = if i % 2 == 1 then 0 ∷ [] else take 1 pw in if i == 0 then [] else byte ++ rest

module _ (C : Crypto) where
  unfoldable pub mix : ℕ → List ℕ → List ℕ → List ℕ → List ℕ
  mix round pw salt digest =
      let odd = round % 2 == 1 in
      C.md5 (
        (if odd then pw else digest)
        ++ ((if round % 3 == 0 then [] else salt)
            ++ ((if round % 7 == 0 then [] else pw) ++ (if odd then digest else pw))))

  -- The rounds from `round` on.
  unfoldable pub mix_rounds : ℕ → ℕ → List ℕ → List ℕ → List ℕ → List ℕ
  mix_rounds zero round pw salt digest = digest
  mix_rounds (suc n) round pw salt digest =
      mix_rounds n (round + 1) pw salt (mix round pw salt digest)

  unfoldable pub apr1_digest : List ℕ → List ℕ → List ℕ
  apr1_digest pw salt =
      let d1 = C.md5 (pw ++ (salt ++ pw)) in
      let first = C.md5 (
        pw
        ++ (codes "$apr1$"
            ++ (salt
                ++ (odd_mixture (length pw) (length pw) d1
                    ++ even_mixture (length pw) (length pw) pw)))) in
      mix_rounds 1000 0 pw salt first

  unfoldable pub apr1_md5 : Text → Text → Text
  apr1_md5 password salt = encode_apr1 (apr1_digest (C.as_bytes password) (C.as_bytes salt))

  -- `constant_time_eq_bytes`
  unfoldable pub constant_time_eq_bytes : List ℕ → List ℕ → Bool
  constant_time_eq_bytes a b = if length a == length b then C.ct_eq a b else false

  unfoldable pub constant_time_eq_str : Text → Text → Bool
  constant_time_eq_str a b = constant_time_eq_bytes (C.as_bytes a) (C.as_bytes b)

  abbrev pub against : Text → Option (Text × Text) → Bool
  against password none = false
  against password (some (salt, expected)) = constant_time_eq_str (apr1_md5 password salt) expected

  abbrev pub salted : Text → Option Text → Bool
  salted password none = false
  salted password (some rest) = against password (split_at b'$' rest)

  unfoldable pub apr1_verify : Text → Text → Bool
  apr1_verify stored password = salted password (strip_prefix (codes "$apr1$") stored)

  abbrev is_true : Option Bool → Bool
  is_true none = false
  is_true (some b) = b

  abbrev sha_matches : Text → Option (List ℕ) → Bool
  sha_matches password none = false
  sha_matches password (some decoded) =
      constant_time_eq_bytes (C.sha1 (C.as_bytes password)) decoded

  unfoldable pub verify_hash : Text → Text → Bool
  verify_hash stored password =
      if starts_with (codes "$2y$") stored
        || starts_with (codes "$2a$") stored
        || starts_with (codes "$2b$") stored
      then is_true (C.bcrypt_verify password stored)
      else elim (strip_prefix (codes "{SHA}") stored) [
        | some b64 ↦ sha_matches password (C.base64_decode b64)
        | none ↦
            if starts_with (codes "$apr1$") stored
            then apr1_verify stored password
            else constant_time_eq_str stored password
      ]

  -- The first entry of the user decides.
  unfoldable pub verify_entries : List (Text × Text) → Text → Text → Bool
  verify_entries [] user password = false
  verify_entries ((u, hash) ∷ entries) user password =
      let rest = verify_entries entries user password in
      if text_eq u user then verify_hash hash password else rest

  unfoldable pub verify : Htpasswd → Text → Text → Bool
  verify h = verify_entries h.entries

  abbrev pub credentials : Option (List ℕ) → Option (Text × Text)
  credentials none = none
  credentials (some decoded) = elim (C.from_utf8 decoded) [
    | none ↦ none
    | some creds ↦ split_at b':' creds
  ]

  unfoldable pub decode_basic : Text → Option (Text × Text)
  decode_basic b64 = credentials (C.base64_decode (trim b64))

  -- A value that is there and passes.
  abbrev pub passes : (Text → Bool) → Option Text → Bool
  passes p none = false
  passes p (some t) = p t

  abbrev pub stripped : Text → Option Text → Option Text
  stripped p none = none
  stripped p (some s) = strip_prefix p s

  unfoldable pub check_token : Option Text → List (Text × Text) → Option Text → Bool
  check_token none query authorization = false
  check_token (some tok) query authorization =
      passes (λ q. constant_time_eq_str q tok) (Map.get (codes "token") query)
      || passes (λ b. constant_time_eq_str b tok) (stripped (codes "Bearer ") authorization)

  abbrev pub verified : Htpasswd → Option (Text × Text) → Bool
  verified h none = false
  verified h (some (u, p)) = verify h u p

  unfoldable pub check_password : Option Htpasswd → List (Text × Text) → Option Text → Bool
  check_password none query authorization = false
  check_password (some h) query authorization =
      passes (λ b. verified h (decode_basic b)) (stripped (codes "Basic ") authorization)
      || passes (λ a. verified h (decode_basic a)) (Map.get (codes "auth") query)

  unfoldable pub check_request : Auth → List (Text × Text) → Option Text → Bool
  check_request auth query authorization =
      if not (required auth)
      then true
      else check_token auth.token query authorization
        || check_password auth.htpasswd query authorization
