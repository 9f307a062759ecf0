-- ===== src/Scheduler/Interval.antt =====
-- `parse_interval` of crates/tttt-scheduler/src/lib.rs, on code points.
use tttt.Base.{
  ℕ, ◌*◌, ◌%◌, Bool, false, ◌&&◌, ◌||◌, Option, none, some, List, [], ◌∷◌, map, ltb, leb,
  if◌then◌else◌, Result, ok, err, ◌+◌,
}
use tttt.Base.Text.{Text, codes, text_eq, strip_prefix}
use tttt.Base.Decimal.{parse_u64, u64_bound}
use tttt.Base.Space.{trim, strip_suffix, split_whitespace, split_once}

pub data SchedulerError : Type 0 where
  invalid_expression not_found : Text → SchedulerError

-- `u64` multiplication as a release build does it.
abbrev pub wrapping_mul : ℕ → ℕ → ℕ
wrapping_mul a b = (a * b) % u64_bound

-- `Ok(Duration::from_secs(n * unit))`, in seconds; `none` goes on to the next format.
abbrev pub scaled : ℕ → Option ℕ → Option ℕ
scaled unit none = none
scaled unit (some n) = some (wrapping_mul n unit)

-- The cron formats refuse a zero.
abbrev pub scaled_positive : ℕ → Option ℕ → Option ℕ
scaled_positive unit none = none
scaled_positive unit (some n) = if ltb 0 n then some (wrapping_mul n unit) else none

abbrev pub number_after : Option Text → Option ℕ
number_after none = none
number_after (some digits) = parse_u64 digits

-- "10s", "5m", "1h"
unfoldable pub compact : ℕ → ℕ → Text → Option ℕ
compact suffix unit expr = scaled unit (number_after (strip_suffix suffix expr))

abbrev pub stars : List Text → Bool
stars (a ∷ b ∷ c ∷ d ∷ []) =
    text_eq a (codes "*") && text_eq b (codes "*") && text_eq c (codes "*") && text_eq d (codes "*")
stars _ = false

-- "*/5 * * * *"
unfoldable pub five_fields : List Text → Option ℕ
five_fields [] = none
five_fields (minute ∷ rest) =
    if stars rest
    then scaled_positive 60 (number_after (strip_prefix (codes "*/") minute))
    else none

-- "*/5"
unfoldable pub shorthand : Text → Option ℕ
shorthand expr = scaled_positive 60 (number_after (strip_prefix (codes "*/") expr))

-- `to_lowercase`; no character outside ASCII has its lower case among the letters of the units.
abbrev pub to_lowercase : Text → Text
to_lowercase = map (λ c. if leb b'A' c && leb c b'Z' then c + 32 else c)

abbrev pub one_of : Text → List Text → Bool
one_of s [] = false
one_of s (t ∷ ts) = text_eq s t || one_of s ts

unfoldable pub unit_seconds : Text → Option ℕ
unit_seconds unit =
    if one_of unit (codes "second" ∷ codes "seconds" ∷ codes "sec" ∷ codes "secs" ∷ codes "s" ∷ [])
    then some 1
    else if one_of unit
        (codes "minute" ∷ codes "minutes" ∷ codes "min" ∷ codes "mins" ∷ codes "m" ∷ [])
    then some 60
    else if one_of unit (codes "hour" ∷ codes "hours" ∷ codes "hr" ∷ codes "hrs" ∷ codes "h" ∷ [])
    then some 3600
    else none

abbrev pub times : Option ℕ → Option ℕ → Option ℕ
times n none = none
times n (some unit) = scaled unit n

abbrev pub number_and_unit : Option (Text × Text) → Option ℕ
number_and_unit none = none
number_and_unit (some (number, unit)) =
    times (parse_u64 number) (unit_seconds (to_lowercase (trim unit)))

abbrev pub or_else {ℓ} : {A : Type ℓ} → Option A → Option A → Option A
or_else (some a) o = some a
or_else none o = o

abbrev pub every : Option Text → Option ℕ
every none = none
every (some rest) = number_and_unit (split_once [] (trim rest))

-- "every 30 seconds"
unfoldable pub human : Text → Option ℕ
human expr =
    every (or_else (strip_prefix (codes "every ") expr) (strip_prefix (codes "every\t") expr))

abbrev pub or_invalid : Text → Option ℕ → Result SchedulerError ℕ
or_invalid expr (some secs) = ok secs
or_invalid expr none = err (invalid_expression expr)

-- The formats in the order in which they are tried.
unfoldable pub formats : Text → Option ℕ
formats expr = or_else (compact b's' 1 expr) (
    or_else (compact b'm' 60 expr) (
      or_else (compact b'h' 3600 expr)
        (or_else (five_fields (split_whitespace expr)) (or_else (shorthand expr) (human expr)))))

-- The interval in seconds.
unfoldable pub parse_interval : Text → Result SchedulerError ℕ
parse_interval text = let expr = trim text in or_invalid expr (formats expr)
