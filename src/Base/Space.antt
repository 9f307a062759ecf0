-- ===== src/Base/Space.antt =====
-- White space in text: `trim`, `split_whitespace` and the suffixes of Rust's `str`, on code points.
use mathlib.Core.Path.{◌≡◌, refl}
use mathlib.Core.Bool.{Bool, false, ◌&&◌, ◌||◌}
use mathlib.Core.List.{List, [], ◌∷◌, ◌++◌}
use mathlib.Core.Option.{Option, none, some}
use mathlib.Core.Option
use Prim.Native.Nat.{ℕ}
use native.Mathlib.Omega.{arith}
use tttt.Base.Tests.{leb, ◌==◌, if◌then◌else◌}
use tttt.Base.Lists.{is_empty}
use tttt.Base.Text.{Text}

-- `char::is_whitespace`: the code points of Unicode's White_Space.
unfoldable pub is_whitespace : ℕ → Bool
is_whitespace c =
    (leb 9 c && leb c 13)
    || c == 0x20
    || c == 0x85
    || c == 0xa0
    || c == 0x1680
    || (leb 0x2000 c && leb c 0x200a)
    || c == 0x2028
    || c == 0x2029
    || c == 0x202f
    || c == 0x205f
    || c == 0x3000

unfoldable pub trim_start_matches : (ℕ → Bool) → Text → Text
trim_start_matches p [] = []
trim_start_matches p (c ∷ cs) = let rest = trim_start_matches p cs in if p c then rest else c ∷ cs

unfoldable pub trim_end_matches : (ℕ → Bool) → Text → Text
trim_end_matches p [] = []
trim_end_matches p (c ∷ cs) =
    let rest = trim_end_matches p cs in if is_empty rest && p c then [] else c ∷ rest

unfoldable pub trim : Text → Text
unfolding trim_start_matches trim_end_matches
trim s = trim_end_matches is_whitespace (trim_start_matches is_whitespace s)

-- `strip_suffix` by a character.
unfoldable pub strip_suffix : ℕ → Text → Option Text
strip_suffix d [] = none
strip_suffix d (c ∷ []) = if c == d then some [] else none
strip_suffix d (c ∷ e ∷ cs) = Option.map (λ r. c ∷ r) (strip_suffix d (e ∷ cs))

abbrev flush : Text → List Text → List Text
flush [] fields = fields
flush (c ∷ cs) fields = (c ∷ cs) ∷ fields

unfoldable pub fields_from : Text → Text → List Text
fields_from field [] = flush field []
fields_from field (c ∷ cs) =
    let ended = flush field (fields_from [] cs) in
    let longer = fields_from (field ++ c ∷ []) cs in if is_whitespace c then ended else longer

unfoldable pub split_whitespace : Text → List Text
unfolding fields_from is_whitespace
split_whitespace = fields_from []

-- The part before the first white space and the part after it, if there is white space.
unfoldable pub split_once : Text → Text → Option (Text × Text)
split_once before [] = none
split_once before (c ∷ cs) =
    let later = split_once (before ++ c ∷ []) cs in
    if is_whitespace c then some (before, cs) else later

pub trim_end_matches-concat :
    (p : ℕ → Bool) (s : Text) (c : ℕ) → p c ≡ false → trim_end_matches p (s ++ c ∷ []) ≡ s ++ c ∷ []
unfolding trim_end_matches
trim_end_matches-concat p [] c h = rw h
trim_end_matches-concat p (d ∷ s) c h = rw (trim_end_matches-concat p s c h) (go s)
  where
    go :
        (r : Text)
        → (if is_empty (r ++ c ∷ []) && p d then [] else d ∷ r ++ c ∷ []) ≡ d ∷ r ++ c ∷ []
    go [] = refl
    go (x ∷ r) = refl

pub strip_suffix-concat : (d : ℕ) (s : Text) → strip_suffix d (s ++ d ∷ []) ≡ some s
unfolding strip_suffix
strip_suffix-concat d [] = ground arith
strip_suffix-concat d (c ∷ []) = rw (strip_suffix-concat d [])
strip_suffix-concat d (c ∷ e ∷ s) = rw (strip_suffix-concat d (e ∷ s))

pub strip_suffix-concat_ne :
    (d c : ℕ) (s : Text) → (c == d) ≡ false → strip_suffix d (s ++ c ∷ []) ≡ none
unfolding strip_suffix
strip_suffix-concat_ne d c [] h = rw h
strip_suffix-concat_ne d c (b ∷ []) h = rw (strip_suffix-concat_ne d c [] h)
strip_suffix-concat_ne d c (b ∷ e ∷ s) h = rw (strip_suffix-concat_ne d c (e ∷ s) h)
