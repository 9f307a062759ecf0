-- ===== src/Pty/Manager.antt =====
-- `SessionManager` of crates/tttt-pty/src/manager.rs. A `HashMap` is an association list.
pub mod Names
pub mod Lookup
pub mod Pumping
pub mod Listing
use tttt.Base.{
  ℕ, ◌+◌, Bool, true, false, not, ◌||◌, Option, none, some, List, [], ◌∷◌, ◌++◌, map, ltb, leb,
  if◌then◌else◌, length, Result, ok, err,
}
use tttt.Base.Text.{Text, codes, text_eq, strip_prefix}
use tttt.Base.Decimal.{to_decimal, parse_u64}
use tttt.Base.Map
use tttt.Pty.Backend.{
  PtyBackend, PtyError, Action, session_not_found, max_sessions_reached, duplicate_name,
}
use tttt.Pty.Screen.{Vt100}
use tttt.Pty.Session
use tttt.Pty.Session.{PtySession, SessionMetadata, Moment, is_running}

pub record SessionManager (V : Vt100) (B : PtyBackend) : Type 0 where
  pub sessions : List (Text × PtySession V B)
  pub names : List (Text × Text)
  pub max_sessions : ℕ
  pub next_id : ℕ

abbrev or_zero : Option ℕ → ℕ
or_zero none = 0
or_zero (some n) = n

abbrev parsed : Option Text → Option ℕ
parsed none = none
parsed (some digits) = parse_u64 digits

-- The number of "pty-N", or zero.
unfoldable pub id_number : Text → ℕ
id_number id = or_zero (parsed (strip_prefix (codes "pty-") id))

-- `sort_by`, which is stable, by the number of the session's name.
unfoldable pub insert_by_number : SessionMetadata → List SessionMetadata → List SessionMetadata
insert_by_number a [] = a ∷ []
insert_by_number a (b ∷ bs) =
    let rest = insert_by_number a bs in
    if leb (id_number a.id) (id_number b.id) then a ∷ b ∷ bs else b ∷ rest

unfoldable pub sort_by_number : List SessionMetadata → List SessionMetadata
sort_by_number [] = []
sort_by_number (a ∷ as') = insert_by_number a (sort_by_number as')

module _ (V : Vt100) (B : PtyBackend) where
  unfoldable pub with_max_sessions : ℕ → SessionManager V B
  with_max_sessions max = record { sessions = []; names = []; max_sessions = max; next_id = 1 }

  -- `DEFAULT_MAX_SESSIONS` is 15.
  unfoldable pub new : SessionManager V B
  unfolding with_max_sessions
  new = with_max_sessions 15

  unfoldable pub generate_id : SessionManager V B → Text × SessionManager V B
  generate_id g = (codes "pty-" ++ to_decimal g.next_id, record g { next_id = g.next_id + 1 })

  unfoldable pub add_session : PtySession V B → Action (SessionManager V B) Text
  add_session s g =
      if leb g.max_sessions (length g.sessions)
      then (err (max_sessions_reached g.max_sessions), g)
      else (ok s.id, record g { sessions = Map.insert s.id s g.sessions })

  unfoldable pub add_session_with_name : PtySession V B → Text → Action (SessionManager V B) Text
  add_session_with_name s name g =
      if Map.contains_key name g.names
      then (err (duplicate_name name), g)
      else if leb g.max_sessions (length g.sessions)
      then (err (max_sessions_reached g.max_sessions), g)
      else (
        ok s.id,
        record g {
          names = Map.insert name s.id g.names;
          sessions = Map.insert s.id (Session.set_name V B name s) g.sessions;
        },
      )

  unfoldable pub resolve_id : Text → SessionManager V B → Result PtyError Text
  resolve_id key g =
      if Map.contains_key key g.sessions
      then ok key
      else elim (Map.get key g.names) [ some id ↦ ok id | none ↦ err (session_not_found key) ]

  abbrev or_missing : Text → Option (PtySession V B) → Result PtyError (PtySession V B)
  or_missing key none = err (session_not_found key)
  or_missing key (some s) = ok s

  -- `get`; `get_mut` finds the same session.
  unfoldable pub get : Text → SessionManager V B → Result PtyError (PtySession V B)
  get key g = elim (Map.get key g.sessions) [
    | some s ↦ ok s
    | none ↦ elim (Map.get key g.names) [
      | some id ↦ or_missing key (Map.get id g.sessions)
      | none ↦ err (session_not_found key)
    ]
  ]

  -- A change through the reference that `get_mut` returns.
  unfoldable pub put_back : PtySession V B → SessionManager V B → SessionManager V B
  put_back s g = record g { sessions = Map.insert s.id s g.sessions }

  abbrev pub removed : Text → SessionManager V B → SessionManager V B
  removed id g = record g {
    sessions = Map.remove id g.sessions;
    names = Map.retain_values (λ v. not (text_eq v id)) g.names;
  }

  -- `session.kill()?`, which leaves its changes in the map, and then the removal.
  abbrev after_kill :
      Text
      → SessionManager V B
      → Result PtyError (Unit {0}) × PtySession V B
      → Result PtyError (Unit {0}) × SessionManager V B
  after_kill id g (err e, s) = (err e, record g { sessions = Map.insert id s g.sessions })
  after_kill id g (ok _, s) = (ok tt, removed id g)

  abbrev kill_known :
      Text
      → Text
      → SessionManager V B
      → Option (PtySession V B)
      → Result PtyError (Unit {0}) × SessionManager V B
  kill_known key id g none = (err (session_not_found key), g)
  kill_known key id g (some s) =
      if is_running s.status then after_kill id g (Session.kill V B s) else (ok tt, removed id g)

  unfoldable pub kill_session : Text → Action (SessionManager V B) (Unit {0})
  kill_session key g = elim (resolve_id key g) [
    | err e ↦ (err e, g)
    | ok id ↦ kill_known key id g (Map.get id g.sessions)
  ]

  unfoldable pub list : SessionManager V B → List SessionMetadata
  list g = sort_by_number (map (λ e. Session.metadata V B e.1) g.sessions)

  unfoldable pub session_count : SessionManager V B → ℕ
  session_count g = length g.sessions

  unfoldable pub exists : Text → SessionManager V B → Bool
  exists key g = Map.contains_key key g.sessions || Map.contains_key key g.names

  -- The loop over the sessions; an error stops it where it stands.
  abbrev pumped :
      Text
      → List (Text × PtySession V B)
      → Result PtyError (List ℕ) × PtySession V B
      → Result PtyError (Unit {0}) × List (Text × PtySession V B)
      → Result PtyError (Unit {0}) × List (Text × PtySession V B)
  pumped id rest (err e, s) later = (err e, (id, s) ∷ rest)
  pumped id rest (ok _, s) (result, rest') = (result, (id, s) ∷ rest')

  unfoldable pub pump_sessions : Moment → Action (List (Text × PtySession V B)) (Unit {0})
  pump_sessions m [] = (ok tt, [])
  pump_sessions m ((id, s) ∷ rest) =
      let later = pump_sessions m rest in pumped id rest (Session.pump_raw V B m s) later

  unfoldable pub pump_all : Moment → Action (SessionManager V B) (Unit {0})
  pump_all m g =
      let (result, sessions) = pump_sessions m g.sessions in
      (result, record g { sessions = sessions })
