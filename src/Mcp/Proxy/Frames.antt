-- ===== src/Mcp/Proxy/Frames.antt =====
-- The reader of the socket finds the messages that the framing wrote.
use tttt.Base.{
  ℕ, zero, suc, ◌+◌, ◌^◌, ◌≤◌, ◌<◌, ◌≡◌, refl, true, false, none, some, List, [], ◌∷◌, ◌++◌, map,
  leb, length, take, All, arith, ap, ◌∙◌, length-append, length-take, take-append, drop-append,
  append_assoc,
}
use tttt.Mcp.Proxy.{
  to_be_bytes, from_be_bytes, read_exact, frame, socket_response, socket_error, body_of, event_of,
  read_frames, socket_reader,
}

abbrev pub Fits : List ℕ → Type 0
Fits m = length m < 2 ^ 32

unfoldable pub frames : List (List ℕ) → List ℕ
frames [] = []
frames (m ∷ ms) = frame false m ++ frames ms

from_be_bytes-to_be_bytes : (n : ℕ) → n < 2 ^ 32 → from_be_bytes (to_be_bytes n) ≡ n
unfolding from_be_bytes to_be_bytes
from_be_bytes-to_be_bytes n h = omega arith

read_exact-append : (m rest : List ℕ) → read_exact (length m) (m ++ rest) ≡ some (m, rest)
unfolding read_exact
read_exact-append m rest =
    let enough : leb (length m) (length (m ++ rest)) ≡ true =
      ground (arith, length-append m rest) in
    rw enough (rw (take-append m rest, drop-append m rest))

read_exact-short : (n : ℕ) (bytes : List ℕ) → length bytes < n → read_exact n bytes ≡ none
unfolding read_exact
read_exact-short n bytes h = let short : leb n (length bytes) ≡ false = ground arith in rw short

header : (n : ℕ) (rest : List ℕ) → read_exact 4 (to_be_bytes n ++ rest) ≡ some (to_be_bytes n, rest)
unfolding to_be_bytes
header n rest = read_exact-append (to_be_bytes n) rest

body_of-frame :
    (m rest : List ℕ) → Fits m → body_of (read_exact 4 (frame false m ++ rest)) ≡ some (m, rest)
unfolding frame
body_of-frame m rest h =
    ap body_of (
      ap (read_exact 4) (append_assoc (to_be_bytes (length m)) m rest)
      ∙ header (length m) (m ++ rest))
    ∙ ap (λ n. read_exact n (m ++ rest)) (from_be_bytes-to_be_bytes (length m) h)
    ∙ read_exact-append m rest

-- A frame of which bytes are missing is no message.
body_of-cut :
    (k : ℕ) (m : List ℕ)
    → Fits m
    → k < length (frame false m)
    → body_of (read_exact 4 (take k (frame false m))) ≡ none
unfolding frame to_be_bytes
body_of-cut zero m h missing = ap body_of (read_exact-short 4 [] (omega arith))
body_of-cut (suc zero) m h missing = ap body_of (read_exact-short 4 _ (omega arith))
body_of-cut (suc (suc zero)) m h missing = ap body_of (read_exact-short 4 _ (omega arith))
body_of-cut (suc (suc (suc zero))) m h missing = ap body_of (read_exact-short 4 _ (omega arith))
body_of-cut (suc (suc (suc (suc j)))) m h missing =
    ap body_of (header (length m) (take j m))
    ∙ ap (λ n. read_exact n (take j m)) (from_be_bytes-to_be_bytes (length m) h)
    ∙ read_exact-short (length m) (take j m) (omega (arith, missing, length-take j m))

length-frame : (m : List ℕ) → length (frame false m) ≡ 4 + length m
unfolding frame to_be_bytes
length-frame m = omega arith

read_frames-frames :
    (rounds : ℕ) (ms : List (List ℕ)) (tail : List ℕ)
    → All Fits ms
    → body_of (read_exact 4 tail) ≡ none
    → length (frames ms ++ tail) ≤ rounds
    → read_frames rounds (frames ms ++ tail) ≡ map socket_response ms ++ (socket_error ∷ [])
unfolding read_frames frames
read_frames-frames zero [] tail h cut enough = refl
read_frames-frames (suc rounds) [] tail h cut enough =
    ap (event_of (λ rest. read_frames rounds rest)) cut
read_frames-frames zero (m ∷ ms) tail h cut enough = absurd (
    omega (
      arith,
      length-append (frame false m ++ frames ms) tail,
      length-append (frame false m) (frames ms),
      length-frame m,
      enough,
    ))
read_frames-frames (suc rounds) (m ∷ ms) tail h cut enough =
    ap (λ bytes. event_of (λ rest. read_frames rounds rest) (body_of (read_exact 4 bytes)))
      (append_assoc (frame false m) (frames ms) tail)
    ∙ ap (event_of (λ rest. read_frames rounds rest)) (body_of-frame m (frames ms ++ tail) h.0)
    ∙ ap (λ es. socket_response m ∷ es)
        (read_frames-frames rounds ms tail h.1 cut (
          omega (
            arith,
            length-append (frame false m ++ frames ms) tail,
            length-append (frame false m) (frames ms),
            length-append (frames ms) tail,
            length-frame m,
            enough,
          )))

-- A socket that delivers frames of messages below 2^32 bytes, and then a first part of such a frame
-- that is not all of it: the reader tells of each message, in order, and then of the end; the rounds
-- suffice, and the last part is not taken for a message.
pub socket_reader-frames :
    (ms : List (List ℕ)) (m : List ℕ) (k : ℕ)
    → All Fits ms
    → Fits m
    → k < length (frame false m)
    → socket_reader (frames ms ++ take k (frame false m))
      ≡ map socket_response ms ++ (socket_error ∷ [])
socket_reader-frames ms m k h fits missing =
    read_frames-frames (length (frames ms ++ take k (frame false m))) ms (take k (frame false m)) h
      (body_of-cut k m fits missing) (omega arith)
