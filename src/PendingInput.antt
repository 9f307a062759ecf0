-- ===== src/PendingInput.antt =====
-- `chunk_len` of src/pending_input.rs: how much of a long input is written at once.
mod Samples
pub mod Queue
use tttt.Base.{
  ℕ, zero, suc, ◌+◌, ◌-◌, ◌≤◌, ◌<◌, ◌≡◌, ◌≢◌, refl, Bool, true, false, ◌&&◌, ◌||◌, Option, none,
  some, List, [], ◌∷◌, ltb, leb, ◌==◌, if◌then◌else◌, length, get_elem?, arith, Bool-cases, inl,
  inr,
}

-- `data[end] & 0xc0 == 0x80`, for a byte; false behind the end.
abbrev is_continuation : Option ℕ → Bool
is_continuation none = false
is_continuation (some b) = leb 128 b && ltb b 192

-- `while end > 0 && … { end -= 1; }`
unfoldable pub step_back : List ℕ → ℕ → ℕ
step_back bytes zero = 0
step_back bytes (suc end) =
    let rest = step_back bytes end in
    if is_continuation (get_elem? bytes (suc end)) then rest else suc end

-- `while end < data.len() && … { end += 1; }`, whose rounds are at most the bytes that are left.
unfoldable pub step_on : ℕ → List ℕ → ℕ → ℕ
step_on zero bytes end = end
step_on (suc fuel) bytes end =
    let rest = step_on fuel bytes (end + 1) in
    if ltb end (length bytes) && is_continuation (get_elem? bytes end) then rest else end

unfoldable pub chunk_len : List ℕ → ℕ → ℕ
chunk_len bytes limit =
    if limit == 0 || leb (length bytes) limit
    then length bytes
    else (let end = step_back bytes limit in
        if end == 0 then step_on (length bytes) bytes limit else end)

-- No character is cut at the index.
abbrev pub IsBoundary : List ℕ → ℕ → Type 0
IsBoundary bytes end = is_continuation (get_elem? bytes end) ≡ false

get_elem?-beyond : (bytes : List ℕ) (n : ℕ) → length bytes ≤ n → get_elem? bytes n ≡ none
get_elem?-beyond [] n h = refl
get_elem?-beyond (b ∷ bytes) zero h = absurd (omega arith)
get_elem?-beyond (b ∷ bytes) (suc n) h = get_elem?-beyond bytes n (omega arith)

end-IsBoundary : (bytes : List ℕ) (n : ℕ) → length bytes ≤ n → IsBoundary bytes n
end-IsBoundary bytes n h = rw (get_elem?-beyond bytes n h)

step_back-le : (bytes : List ℕ) (n : ℕ) → step_back bytes n ≤ n
unfolding step_back
step_back-le bytes zero = omega arith
step_back-le bytes (suc n) = ground (arith, step_back-le bytes n)

step_back-IsBoundary :
    (bytes : List ℕ) (n : ℕ)
    → (step_back bytes n == 0) ≡ false
    → is_continuation (get_elem? bytes (step_back bytes n)) ≡ false
unfolding step_back
step_back-IsBoundary bytes zero h = absurd (ground arith)
step_back-IsBoundary bytes (suc n) h =
    elim (Bool-cases (is_continuation (get_elem? bytes (suc n)))) [
      | inl inside ↦ rw inside (step_back-IsBoundary bytes n (ground arith))
      | inr start ↦ rw start start
    ]

step_on-bounds :
    (fuel : ℕ) (bytes : List ℕ) (n : ℕ)
    → n ≤ length bytes
    → (n ≤ step_on fuel bytes n) × (step_on fuel bytes n ≤ length bytes)
unfolding step_on
step_on-bounds zero bytes n h = ground arith
step_on-bounds (suc fuel) bytes n h = ground (arith, step_on-bounds fuel bytes (n + 1))

step_on-IsBoundary :
    (fuel : ℕ) (bytes : List ℕ) (n : ℕ)
    → length bytes ≤ fuel + n
    → IsBoundary bytes (step_on fuel bytes n)
unfolding step_on
step_on-IsBoundary zero bytes n h = end-IsBoundary bytes n (omega arith)
step_on-IsBoundary (suc fuel) bytes n h =
    elim (Bool-cases (ltb n (length bytes) && is_continuation (get_elem? bytes n))) [
      | inl more ↦ rw more (step_on-IsBoundary fuel bytes (n + 1) (omega arith))
      | inr done ↦ elim (Bool-cases (ltb n (length bytes))) [
        | inl inside ↦ rw done (ground arith)
        | inr over ↦ rw done (end-IsBoundary bytes n (ground arith))
      ]
    ]

-- A chunk of some input takes a byte at least and no more than there are, and ends in front of
-- the first byte of a character or at the end of the input.
pub chunk_len_progress :
    (bytes : List ℕ) (limit : ℕ)
    → 0 < length bytes
    → (0 < chunk_len bytes limit)
      × (chunk_len bytes limit ≤ length bytes)
      × IsBoundary bytes (chunk_len bytes limit)
unfolding chunk_len
chunk_len_progress bytes limit some_bytes =
    elim (Bool-cases (limit == 0 || leb (length bytes) limit)) [
      | inl all ↦
          rw all (some_bytes, omega arith, end-IsBoundary bytes (length bytes) (omega arith))
      | inr split ↦ elim (Bool-cases (step_back bytes limit == 0)) [
        | inl stuck ↦
            let within = step_on-bounds (length bytes) bytes limit (ground arith) in
            rw (split, stuck)
              (ground arith, within.1, step_on-IsBoundary (length bytes) bytes limit (omega arith))
        | inr found ↦
            rw (split, found)
              (
                ground arith,
                ground (arith, step_back-le bytes limit),
                step_back-IsBoundary bytes limit found,
              )
      ]
    ]
