-- ===== src/InjectedEnter.antt =====
-- src/injected_enter.rs: the Enter that submits an injected text, sent late and repeated while the
-- text still stands in the input of the program. Times are nanoseconds. What the logger is told is
-- a list of messages, each with its session; its errors are ignored, as the source does.
pub mod Screen
pub mod Patience
pub mod Guard
mod Samples
use tttt.Base.{
  ℕ, ◌+◌, ◌-◌, ◌*◌, Bool, true, false, not, ◌&&◌, ◌||◌, Option, none, some, List, [], ◌∷◌, ◌++◌,
  ltb, leb, ◌==◌, if◌then◌else◌, Result, ok, err,
}
use tttt.Base.Text.{Text, codes, strip_prefix}
use tttt.Base.Decimal.{to_decimal}
use tttt.Pty.Backend.{PtyBackend, PtyError}
use tttt.Pty.Screen.{Vt100}
use Screen.{ScreenReader, input_matches}
use tttt.Pty.Session
use tttt.Pty.Session.{PtySession, Moment, is_running}
use tttt.Pty.Manager
use tttt.Pty.Manager.{SessionManager}

pub record PendingEnter : Type 0 where
  pub session_id : Text
  pub text : Text
  pub fire_at : ℕ
  pub input_at : ℕ
  pub quiet_since : Option ℕ
  pub checks : ℕ
  pub retries : ℕ

abbrev pub nanos_per_milli : ℕ
nanos_per_milli = 1_000_000

abbrev pub nanos_per_sec : ℕ
nanos_per_sec = 1_000_000_000

abbrev pub or_whole : Text → Option Text → Text
or_whole text none = text
or_whole text (some rest) = rest

-- `text.strip_prefix("[ENTER]").unwrap_or(text)`
unfoldable pub without_enter : Text → Text
without_enter text = or_whole text (strip_prefix (codes "[ENTER]") text)

-- `RETRY_DELAYS`, and a second behind its end.
unfoldable pub retry_delay : ℕ → ℕ
retry_delay checks =
    if checks == 0
    then nanos_per_sec
    else if checks == 1
    then 2 * nanos_per_sec
    else if checks == 2
    then 4 * nanos_per_sec
    else nanos_per_sec

-- `RETRY_DELAYS.len()`
abbrev pub max_checks : ℕ
max_checks = 3

abbrev pub Log : Type 0
Log = List (Text × Text)

-- Reasons of `give_up`, with the number of retries.
unfoldable pub gave_up : Text → PendingEnter → Log
gave_up reason e =
    (
      e.session_id,
      codes "[ENTER-GAVE-UP] "
          ++ (reason ++ (codes " (" ++ (to_decimal e.retries ++ codes " retries)"))),
    )
    ∷ []

unfoldable pub dropped : Text → PendingEnter → Log
dropped reason e = (e.session_id, codes "[NOTIFICATION-DROPPED] delayed Enter: " ++ reason) ∷ []

module _ (V : Vt100) (B : PtyBackend) where
  unfoldable pub new : PtySession V B → Text → ℕ → PendingEnter
  new s text now = record {
    session_id = s.id;
    text = without_enter text;
    fire_at = now + 100 * nanos_per_milli;
    input_at = s.last_input_time;
    quiet_since = none;
    checks = 0;
    retries = 0;
  }

module _ (V : Vt100) (R : ScreenReader V) (B : PtyBackend) where
  -- What a round makes of an entry: the entry, if it is kept, the sessions, and what is logged.
  pub record Round : Type 0 where
    pub entry : Option PendingEnter
    pub sessions : SessionManager V B
    pub log : Log

  abbrev stop : SessionManager V B → Log → Round
  stop g log = record { entry = none; sessions = g; log = log }

  abbrev keep : PendingEnter → SessionManager V B → Log → Round
  keep e g log = record { entry = some e; sessions = g; log = log }

  abbrev enter_key : Text
  enter_key = codes "[ENTER]"

  -- Behind the first Enter: verification is armed if the input was still the program's own.
  abbrev armed :
      ℕ
      → Bool
      → PendingEnter
      → SessionManager V B
      → Result PtyError (Unit {0}) × PtySession V B
      → Round
  armed now owned e g (err why, s) =
      stop (Manager.put_back V B s g) (dropped (codes "send failed") e)
  armed now owned e g (ok _, s) =
      if owned
      then keep
          (record e {
            input_at = s.last_input_time;
            quiet_since = some s.last_input_time;
            fire_at = now + nanos_per_sec;
          })
          (Manager.put_back V B s g) []
      else stop (Manager.put_back V B s g) (gave_up (codes "input changed before initial Enter") e)

  abbrev owns : (Text → Bool) → PendingEnter → PtySession V B → Bool
  owns waiting e s = s.last_input_time == e.input_at && not (waiting e.session_id)

  unfoldable pub first_enter :
      ℕ → Moment → (Text → Bool) → PendingEnter → SessionManager V B → PtySession V B → Round
  first_enter now m waiting e g s =
      armed now (owns waiting e s) e g (Session.send_keys V B m enter_key s)

  -- The end of a check that keeps the entry.
  abbrev checked : ℕ → PendingEnter → PendingEnter
  checked now e = record e {
    checks = e.checks + 1;
    quiet_since = some now;
    fire_at = now + retry_delay (e.checks + 1);
  }

  abbrev retried :
      ℕ → PendingEnter → SessionManager V B → Result PtyError (Unit {0}) × PtySession V B → Round
  retried now e g (err why, s) =
      stop (Manager.put_back V B s g) (gave_up (codes "retry send failed") e)
  retried now e g (ok _, s) =
      let n = e.retries + 1 in
      keep (checked now (record e { retries = n; input_at = s.last_input_time }))
        (Manager.put_back V B s g)
        ((
          e.session_id,
          codes "[ENTER-RETRY "
              ++ (to_decimal n ++ codes "] matching injected input is still pending"),
        )
          ∷ [])

  -- A round behind the first Enter.
  unfoldable pub check_again :
      ℕ → Moment → (Text → Bool) → PendingEnter → ℕ → SessionManager V B → PtySession V B → Round
  check_again now m waiting e quiet_since g s =
      if not (is_running s.status)
      then stop g (gave_up (codes "target session exited") e)
      else if not (owns waiting e s)
      then stop g (gave_up (codes "intervening input") e)
      else if not (input_matches V R B s e.text)
      then stop g (
          (
            e.session_id,
            codes "[ENTER-VERIFY] no matching input, stopping ("
                ++ (to_decimal e.retries ++ codes " retries)"),
          )
          ∷ [])
      else if e.checks == max_checks
      then stop g (gave_up (codes "matching input remains after final check") e)
      else if leb (now - quiet_since) (Session.idle_at V B now s)
      then retried now e g (Session.send_keys V B m enter_key s)
      else keep (checked now e) g []

  abbrev gone : PendingEnter → Log
  gone e = elim e.quiet_since [
    | none ↦ dropped (codes "target session gone") e
    | some since ↦ gave_up (codes "target session gone") e
  ]

  abbrev found :
      ℕ
      → Moment
      → (Text → Bool)
      → PendingEnter
      → SessionManager V B
      → Option ℕ
      → PtySession V B
      → Round
  found now m waiting e g none s = first_enter now m waiting e g s
  found now m waiting e g (some since) s = check_again now m waiting e since g s

  -- The closure of `retain_mut`.
  unfoldable pub drain_enter :
      ℕ → Moment → (Text → Bool) → PendingEnter → SessionManager V B → Round
  drain_enter now m waiting e g =
      if ltb now e.fire_at then keep e g [] else elim (Manager.get V B e.session_id g) [
        | err why ↦ stop g (gone e)
        | ok s ↦ found now m waiting e g e.quiet_since s
      ]

  abbrev push : Option PendingEnter → List PendingEnter → List PendingEnter
  push none rest = rest
  push (some e) rest = e ∷ rest

  unfoldable pub drain_delayed_enters :
      ℕ
      → Moment
      → (Text → Bool)
      → List PendingEnter
      → SessionManager V B
      → List PendingEnter × SessionManager V B × Log
  drain_delayed_enters now m waiting [] g = ([], g, [])
  drain_delayed_enters now m waiting (e ∷ pending) g =
      let r = drain_enter now m waiting e g in
      let (kept, g', log) = drain_delayed_enters now m waiting pending r.sessions in
      (push r.entry kept, g', r.log ++ log)
