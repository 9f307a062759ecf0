-- ===== src/Mcp/Notification.antt =====
-- `NotificationRegistry` of crates/tttt-mcp/src/notification.rs. Regular expressions are a
-- parameter: what compiles, with the error's message, and what a compiled one matches.
pub mod Once
use tttt.Base.{
  ℕ, zero, suc, ◌+◌, ◌≡◌, refl, Bool, true, false, not, ◌&&◌, ◌||◌, Option, none, some, List, [],
  ◌∷◌, ◌++◌, ltb, leb, ◌==◌, if◌then◌else◌, length, drop, get_elem?, is_empty, retain, Result, ok,
  err, All, arith, Bool-cases, Option-cases, inl, inr, ◌∙◌, ap,
}
use tttt.Base.Text.{Text, codes, text_eq}
use tttt.Base.Decimal.{to_decimal}

pub record Regex : Type 1 where
  pub Compiled : Type 0
  pub new : Text → Result Text Compiled
  pub is_match : Compiled → Text → Bool

pub record Injection : Type 0 where
  pub target_session_id : Text
  pub text : Text
  pub watcher_id : Text

pub record NotificationWatcher (R : Regex) : Type 0 where
  pub id : Text
  pub watch_session_id : Text
  pub pattern : Text
  pub compiled : Option R.Compiled
  pub inject_text : Text
  pub inject_session_id : Text
  pub one_shot : Bool
  pub fired : Bool
  pub last_screen : Option Text
  pub match_whole_screen : Bool

pub record NotificationRegistry (R : Regex) : Type 0 where
  pub watchers : List (NotificationWatcher R)
  pub next_id : ℕ

-- How many bytes two screens have in common at the front.
unfoldable pub common_bytes : Text → Text → ℕ
common_bytes (a ∷ s) (b ∷ t) = let n = common_bytes s t in if a == b then suc n else 0
common_bytes _ _ = 0

-- The byte is no continuation of a UTF-8 character.
abbrev starts_char : Option ℕ → Bool
starts_char none = false
starts_char (some b) = ltb b 128 || leb 192 b

unfoldable pub is_char_boundary : ℕ → Text → Bool
is_char_boundary zero s = true
is_char_boundary (suc i) s = suc i == length s || starts_char (get_elem? s (suc i))

-- The last boundary up to an index.
unfoldable pub boundary_at : ℕ → Text → ℕ
boundary_at zero s = 0
boundary_at (suc i) s = let n = boundary_at i s in if is_char_boundary (suc i) s then suc i else n

-- What a screen shows behind its common part with the last one.
unfoldable pub new_content : Text → Text → Text
new_content prev screen = drop (boundary_at (common_bytes prev screen) screen) screen

module _ (R : Regex) where
  unfoldable pub new : NotificationRegistry R
  new = record { watchers = []; next_id = 1 }

  abbrev compiled_or_invalid : Text → Result Text R.Compiled → Result Text R.Compiled
  compiled_or_invalid pattern (ok c) = ok c
  compiled_or_invalid pattern (err e) = err (codes "invalid regex '" ++ pattern ++ codes "': " ++ e)

  unfoldable pub add_watcher_inner :
      Text
      → Text
      → Text
      → Text
      → Bool
      → Bool
      → NotificationRegistry R
      → Result Text Text × NotificationRegistry R
  add_watcher_inner watch_session_id pattern inject_text inject_session_id one_shot whole r =
      elim (compiled_or_invalid pattern (R.new pattern)) [
        | err e ↦ (err e, r)
        | ok c ↦
            let id = codes "notify-" ++ to_decimal r.next_id in
            let w : NotificationWatcher R = record {
              id = id;
              watch_session_id = watch_session_id;
              pattern = pattern;
              compiled = some c;
              inject_text = inject_text;
              inject_session_id = inject_session_id;
              one_shot = one_shot;
              fired = false;
              last_screen = none;
              match_whole_screen = whole;
            } in
            (ok id, record { watchers = r.watchers ++ w ∷ []; next_id = r.next_id + 1 })
      ]

  unfoldable pub add_watcher :
      Text
      → Text
      → Text
      → Text
      → Bool
      → NotificationRegistry R
      → Result Text Text × NotificationRegistry R
  add_watcher watch_session_id pattern inject_text inject_session_id one_shot r =
      add_watcher_inner watch_session_id pattern inject_text inject_session_id one_shot false r

  unfoldable pub add_watcher_matching_whole_screen :
      Text
      → Text
      → Text
      → Text
      → Bool
      → NotificationRegistry R
      → Result Text Text × NotificationRegistry R
  add_watcher_matching_whole_screen watch_session_id pattern inject_text inject_session_id one_shot
        r =
      add_watcher_inner watch_session_id pattern inject_text inject_session_id one_shot true r

  unfoldable pub remove_watcher : Text → NotificationRegistry R → Bool × NotificationRegistry R
  remove_watcher id r =
      let kept = retain (λ w. not (text_eq w.id id)) r.watchers in
      (ltb (length kept) (length r.watchers), record r { watchers = kept })

  abbrev matches : Option R.Compiled → Text → Bool
  matches none text = false
  matches (some c) text = R.is_match c text

  abbrev injection : NotificationWatcher R → Injection
  injection w = record {
    target_session_id = w.inject_session_id;
    text = w.inject_text;
    watcher_id = w.id;
  }

  abbrev fire_if : Bool → NotificationWatcher R → Option Injection × NotificationWatcher R
  fire_if true w = (some (injection w), record w { fired = true })
  fire_if false w = (none, w)

  unfoldable pub check_diff :
      Text → NotificationWatcher R → Option Text → Option Injection × NotificationWatcher R
  check_diff screen w none = (none, record w { last_screen = some screen })
  check_diff screen w (some prev) =
      let diff = new_content prev screen in
      let w' : NotificationWatcher R = record w { last_screen = some screen } in
      if is_empty diff then (none, w') else fire_if (matches w.compiled diff) w'

  -- The body of the loop over the watchers.
  unfoldable pub check_watcher :
      Text → Text → NotificationWatcher R → Option Injection × NotificationWatcher R
  check_watcher session_id screen w =
      if not (text_eq w.watch_session_id session_id)
      then (none, w)
      else if w.fired && w.one_shot
      then (none, w)
      else if w.match_whole_screen
      then fire_if (matches w.compiled screen) w
      else check_diff screen w w.last_screen

  abbrev push : Option Injection → List Injection → List Injection
  push none later = later
  push (some i) later = i ∷ later

  unfoldable pub check_watchers :
      Text → Text → List (NotificationWatcher R) → List Injection × List (NotificationWatcher R)
  check_watchers session_id screen [] = ([], [])
  check_watchers session_id screen (w ∷ ws) =
      let (injected, w') = check_watcher session_id screen w in
      let (later, ws') = check_watchers session_id screen ws in (push injected later, w' ∷ ws')

  abbrev pub is_pending : NotificationWatcher R → Bool
  is_pending w = not (w.one_shot && w.fired)

  unfoldable pub check_session :
      Text → Text → NotificationRegistry R → List Injection × NotificationRegistry R
  check_session session_id screen r =
      let (injections, ws) = check_watchers session_id screen r.watchers in
      (injections, record r { watchers = retain is_pending ws })

  unfoldable pub watcher_count : NotificationRegistry R → ℕ
  watcher_count r = length r.watchers
