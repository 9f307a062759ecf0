-- ===== src/Web/Auth/Apr1.antt =====
-- The apr1 hash: which passwords a stored hash accepts.
use tttt.Base.{
  ℕ, zero, suc, ◌+◌, ◌-◌, ◌/◌, ◌%◌, ◌^◌, ◌≤◌, ◌<◌, ◌≡◌, ◌↔◌, refl, Bool, true, false, ◌&&◌, some,
  List, [], ◌∷◌, ◌++◌, ltb, leb, ◌==◌, if◌then◌else◌, length, take, drop, All, arith, ap, sym, ◌∙◌,
  Bool-cases, inl, inr,
}
use tttt.Base.Text.{Text, codes, strip_prefix, strip_prefix-append}
use tttt.Web.Auth
use tttt.Web.Auth.{
  Crypto, apr1_char, to64, triple, byte_at, encode_apr1, odd_mixture, even_mixture, split_at,
}
use tttt.Web.Auth.Granted.{Compares, constant_time_eq_str_iff}

abbrev all_below : ℕ → (ℕ → Bool) → Bool
all_below zero p = true
all_below (suc n) p = p n && all_below n p

all_below-at : (n : ℕ) (p : ℕ → Bool) (v : ℕ) → all_below n p ≡ true → v < n → p v ≡ true
all_below-at zero p v h k = absurd (omega arith)
all_below-at (suc n) p v h k = elim (Bool-cases (v == n)) [
  | inl same ↦ let eq : v ≡ n = ground arith in rw eq (ground arith)
  | inr other ↦ all_below-at n p v (ground arith) (ground arith)
]

-- The number of a character.
abbrev apr1_value : ℕ → ℕ
apr1_value c = if ltb c b'A' then c - b'.' else if ltb c b'a' then c - b'A' + 12 else c - b'a' + 38

values : all_below 64 (λ v. apr1_value (apr1_char v) == v) ≡ true
unfolding apr1_char
values = refl

apr1_char_injective : (u v : ℕ) → u < 64 → v < 64 → apr1_char u ≡ apr1_char v → u ≡ v
apr1_char_injective u v h k e =
    let a = all_below-at 64 (λ v. apr1_value (apr1_char v) == v) u values h in
    let b = all_below-at 64 (λ v. apr1_value (apr1_char v) == v) v values k in
    let c : apr1_value (apr1_char u) ≡ apr1_value (apr1_char v) = ap apr1_value e in ground arith

digit_eq :
    (u v i : ℕ) (s t : Text)
    → byte_at s i ≡ apr1_char (u % 64)
    → byte_at t i ≡ apr1_char (v % 64)
    → s ≡ t
    → u % 64 ≡ v % 64
digit_eq u v i s t h k e =
    apr1_char_injective (u % 64) (v % 64) (omega arith) (omega arith)
      (sym h ∙ ap (λ x. byte_at x i) e ∙ k)

to64_four : (u v : ℕ) → u < 2 ^ 24 → v < 2 ^ 24 → to64 u 4 ≡ to64 v 4 → u ≡ v
unfolding to64
to64_four u v h k e = omega (
  arith,
  digit_eq u v 0 _ _ refl refl e,
  digit_eq (u / 64) (v / 64) 1 _ _ refl refl e,
  digit_eq (u / 64 / 64) (v / 64 / 64) 2 _ _ refl refl e,
  digit_eq (u / 64 / 64 / 64) (v / 64 / 64 / 64) 3 _ _ refl refl e,
)

to64_two : (u v : ℕ) → u < 256 → v < 256 → to64 u 2 ≡ to64 v 2 → u ≡ v
unfolding to64
to64_two u v h k e =
    omega (arith, digit_eq u v 0 _ _ refl refl e, digit_eq (u / 64) (v / 64) 1 _ _ refl refl e)

-- Sixteen bytes.
abbrev pub IsDigest : List ℕ → Type 0
IsDigest d = (length d ≡ 16) × All (λ b. b < 256) d

byte_bound : (d : List ℕ) (i : ℕ) → All (λ b. b < 256) d → byte_at d i < 256
byte_bound [] i h = omega arith
byte_bound (b ∷ d) zero h = h.0
byte_bound (b ∷ d) (suc i) h = byte_bound d i h.1

abbrev Parts : List ℕ → List ℕ → ℕ → ℕ → ℕ → Type 0
Parts d e i j k =
    (byte_at d i ≡ byte_at e i) × (byte_at d j ≡ byte_at e j) × (byte_at d k ≡ byte_at e k)

same_triple :
    (d e : List ℕ) (i j k : ℕ)
    → All (λ b. b < 256) d
    → All (λ b. b < 256) e
    → to64 (triple (byte_at d i) (byte_at d j) (byte_at d k)) 4
      ≡ to64 (triple (byte_at e i) (byte_at e j) (byte_at e k)) 4
    → Parts d e i j k
same_triple d e i j k hd he same =
    let di = byte_bound d i hd in
    let dj = byte_bound d j hd in
    let dk = byte_bound d k hd in
    let ei = byte_bound e i he in
    let ej = byte_bound e j he in
    let ek = byte_bound e k he in
    let eq = to64_four _ _ (omega arith) (omega arith) same in
    (omega (arith, eq), omega (arith, eq), omega (arith, eq))

same_bytes :
    (n : ℕ) (d e : List ℕ)
    → length d ≡ n
    → length e ≡ n
    → ((i : ℕ) → i < n → byte_at d i ≡ byte_at e i)
    → d ≡ e
same_bytes n [] [] h k same = refl
same_bytes n [] (c ∷ e) h k same = absurd (omega arith)
same_bytes n (b ∷ d) [] h k same = absurd (omega arith)
same_bytes zero (b ∷ d) (c ∷ e) h k same = absurd (omega arith)
same_bytes (suc n) (b ∷ d) (c ∷ e) h k same =
    let first : b ≡ c = same 0 (omega arith) in
    let rest : d ≡ e =
      same_bytes n d e (omega arith) (omega arith) (λ i lt. same (suc i) (omega arith)) in
    rw first (ap (λ r. c ∷ r) rest)

-- Equal at every number below one.
abbrev Below : (ℕ → ℕ) → (ℕ → ℕ) → ℕ → Type 0
Below f g zero = Unit
Below f g (suc n) = Below f g n × (f n ≡ g n)

Below-at : (f g : ℕ → ℕ) (n : ℕ) → Below f g n → (i : ℕ) → i < n → f i ≡ g i
Below-at f g zero h i k = absurd (omega arith)
Below-at f g (suc n) h i k = elim (Bool-cases (i == n)) [
  | inl same ↦ let eq : i ≡ n = ground arith in rw eq h.1
  | inr other ↦ Below-at f g n h.0 i (ground arith)
]

encode_apr1_injective :
    (d e : List ℕ) → IsDigest d → IsDigest e → encode_apr1 d ≡ encode_apr1 e → d ≡ e
unfolding encode_apr1 to64
encode_apr1_injective d e hd he same =
    same_bytes 16 d e hd.0 he.0 (Below-at (byte_at d) (byte_at e) 16 all)
  where
    p0 : Parts d e 0 6 12
    p0 = same_triple d e 0 6 12 hd.1 he.1 (ap (take 4) same)

    p1 : Parts d e 1 7 13
    p1 = same_triple d e 1 7 13 hd.1 he.1 (ap (λ t. take 4 (drop 4 t)) same)

    p2 : Parts d e 2 8 14
    p2 = same_triple d e 2 8 14 hd.1 he.1 (ap (λ t. take 4 (drop 8 t)) same)

    p3 : Parts d e 3 9 15
    p3 = same_triple d e 3 9 15 hd.1 he.1 (ap (λ t. take 4 (drop 12 t)) same)

    p4 : Parts d e 4 10 5
    p4 = same_triple d e 4 10 5 hd.1 he.1 (ap (λ t. take 4 (drop 16 t)) same)

    p5 : byte_at d 11 ≡ byte_at e 11
    p5 =
        to64_two (byte_at d 11) (byte_at e 11) (byte_bound d 11 hd.1) (byte_bound e 11 he.1)
          (ap (drop 20) same)

    low : Below (byte_at d) (byte_at e) 8
    low = ((((((((tt, p0.0), p1.0), p2.0), p3.0), p4.0), p4.2), p0.1), p1.1)

    all : Below (byte_at d) (byte_at e) 16
    all = ((((((((low, p2.1), p3.1), p4.1), p5), p0.2), p1.2), p2.2), p3.2)

-- A hash has sixteen bytes.
pub record Digests (C : Crypto) : Type 0 where
  pub digest : (bytes : List ℕ) → IsDigest (C.md5 bytes)

-- Rounds beyond those that the loops need change nothing.
pub odd_mixture-enough :
    (n m pl : ℕ) (d1 : List ℕ) → pl ≤ n → pl ≤ m → odd_mixture n pl d1 ≡ odd_mixture m pl d1
unfolding odd_mixture
odd_mixture-enough zero zero pl d1 h k = refl
odd_mixture-enough zero (suc m) pl d1 h k = let over : pl ≡ 0 = omega arith in rw over refl
odd_mixture-enough (suc n) zero pl d1 h k = let over : pl ≡ 0 = omega arith in rw over refl
odd_mixture-enough (suc n) (suc m) pl d1 h k = elim (Bool-cases (pl == 0)) [
  | inl over ↦ rw over refl
  | inr more ↦ rw more (
      ap (λ r. take (if leb 16 pl then 16 else pl) d1 ++ r)
        (odd_mixture-enough n m (pl - (if leb 16 pl then 16 else pl)) d1 (ground arith)
          (ground arith)))
]

pub even_mixture-enough :
    (n m i : ℕ) (pw : List ℕ) → i ≤ n → i ≤ m → even_mixture n i pw ≡ even_mixture m i pw
unfolding even_mixture
even_mixture-enough zero zero i pw h k = refl
even_mixture-enough zero (suc m) i pw h k = let over : i ≡ 0 = omega arith in rw over refl
even_mixture-enough (suc n) zero i pw h k = let over : i ≡ 0 = omega arith in rw over refl
even_mixture-enough (suc n) (suc m) i pw h k = elim (Bool-cases (i == 0)) [
  | inl over ↦ rw over refl
  | inr more ↦ rw more (
      ap (λ r. (if i % 2 == 1 then 0 ∷ [] else take 1 pw) ++ r)
        (even_mixture-enough n m (i / 2) pw (ground arith) (ground arith)))
]

split_at-append :
    (d : ℕ) (s t : Text) → All (λ c. (c == d) ≡ false) s → split_at d (s ++ (d ∷ t)) ≡ some (s, t)
unfolding split_at
split_at-append d [] t h = ground arith
split_at-append d (c ∷ s) t h = rw h.0 (ap (Auth.ahead c) (split_at-append d s t h.1))

module _ (C : Crypto) (K : Compares C) (G : Digests C) where
  mix_rounds-IsDigest :
      (n round : ℕ) (pw salt digest : List ℕ)
      → IsDigest digest
      → IsDigest (Auth.mix_rounds C n round pw salt digest)
  unfolding Auth.mix_rounds Auth.mix
  mix_rounds-IsDigest zero round pw salt digest h = h
  mix_rounds-IsDigest (suc n) round pw salt digest h =
      mix_rounds-IsDigest n (round + 1) pw salt (Auth.mix C round pw salt digest) (G.digest _)

  apr1_digest-IsDigest : (pw salt : List ℕ) → IsDigest (Auth.apr1_digest C pw salt)
  unfolding Auth.apr1_digest
  apr1_digest-IsDigest pw salt = mix_rounds-IsDigest 1000 0 pw salt _ (G.digest _)

  -- The digest of a password, by a salt.
  abbrev pub digest_of : Text → Text → List ℕ
  digest_of password salt = Auth.apr1_digest C (C.as_bytes password) (C.as_bytes salt)

  -- The line that is stored for a password.
  abbrev pub stored_apr1 : Text → Text → Text
  stored_apr1 password salt = codes "$apr1$" ++ (salt ++ (b'$' ∷ Auth.apr1_md5 C password salt))

  apr1_verify_stored :
      (password stored salt : Text)
      → All (λ c. (c == b'$') ≡ false) salt
      → Auth.apr1_verify C (stored_apr1 stored salt) password
        ≡ Auth.constant_time_eq_str C (Auth.apr1_md5 C password salt) (Auth.apr1_md5 C stored salt)
  unfolding Auth.apr1_verify
  apr1_verify_stored password stored salt h =
      ap (Auth.salted C password) (strip_prefix-append (codes "$apr1$") _)
      ∙ ap (Auth.against C password) (split_at-append b'$' salt _ h)

  verify_hash_stored :
      (password stored salt : Text)
      → Auth.verify_hash C (stored_apr1 stored salt) password
        ≡ Auth.apr1_verify C (stored_apr1 stored salt) password
  unfolding Auth.verify_hash strip_prefix
  verify_hash_stored password stored salt = refl

  -- Where md5 gives sixteen bytes and the comparison in constant time is equality: the apr1 line of a
  -- password and a salt without a dollar sign accepts exactly the passwords whose apr1 digest by that
  -- salt is the same.
  pub verify_apr1_iff :
      (password stored salt : Text)
      → All (λ c. (c == b'$') ≡ false) salt
      → (Auth.verify_hash C (stored_apr1 stored salt) password ≡ true)
        ↔ (digest_of password salt ≡ digest_of stored salt)
  unfolding Auth.apr1_md5
  verify_apr1_iff password stored salt h =
      let steps =
        verify_hash_stored password stored salt ∙ apr1_verify_stored password stored salt h in
      let k =
        constant_time_eq_str_iff C K (Auth.apr1_md5 C password salt)
          (Auth.apr1_md5 C stored salt) in
      (
        (λ e.
            encode_apr1_injective _ _ (apr1_digest-IsDigest _ _) (apr1_digest-IsDigest _ _)
              (k.0 (sym steps ∙ e))),
        λ e. steps ∙ k.1 (ap encode_apr1 e),
      )
