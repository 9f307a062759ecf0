-- ===== src/Pty/Manager/Names.antt =====
-- The manager's two maps under any sequence of its operations.
use mathlib.Core.Path.{subst}
use tttt.Base.{
  ℕ, ◌≤◌, ◌≡◌, refl, true, false, not, Option, none, some, List, length, arith, sym, ◌∙◌, Result,
  ok, err, Option-cases, Result-cases, Bool-cases, inl, inr, All, leb,
}
use tttt.Base.Text.{Text, text_eq, text_eq_refl, text_eq_sym}
use tttt.Base.Map
use tttt.Pty.Backend.{PtyBackend, PtyError}
use tttt.Pty.Screen.{Vt100}
use tttt.Pty.Session
use tttt.Pty.Session.{PtySession, Moment, is_running, buffer_size}
use tttt.Pty.Manager
use tttt.Pty.Manager.{SessionManager}
use tttt.Pty.Manager.Pumping.{
  HasId, pump_sessions_keeps, length-pump_sessions, contains_key-pump_sessions,
  Distinct-pump_sessions,
}

module _ (V : Vt100) (B : PtyBackend) where
  pub data Step : SessionManager V B → SessionManager V B → Type 0 where
    generated : (g : SessionManager V B) → Step g (Manager.generate_id V B g).1
    added : (s : PtySession V B) (g : SessionManager V B) → Step g (Manager.add_session V B s g).1
    named :
        (s : PtySession V B) (name : Text) (g : SessionManager V B)
        → Step g (Manager.add_session_with_name V B s name g).1
    changed :
        (key : Text) (s t : PtySession V B) (g : SessionManager V B)
        → Manager.get V B key g ≡ ok s
        → t.id ≡ s.id
        → Step g (Manager.put_back V B t g)
    killed : (key : Text) (g : SessionManager V B) → Step g (Manager.kill_session V B key g).1
    pumped : (m : Moment) (g : SessionManager V B) → Step g (Manager.pump_all V B m g).1

  pub data Reach (g : SessionManager V B) : SessionManager V B → Type 0 where
    start : Reach g g
    next : {h k : SessionManager V B} → Reach g h → Step h k → Reach g k

  abbrev pub IsAlive : SessionManager V B → Text × Text → Type 0
  IsAlive g e = Map.contains_key e.1 g.sessions ≡ true

  pub record IsSound (g : SessionManager V B) : Type 0 where
    pub ids : All (HasId V B) g.sessions
    pub alive : All (IsAlive g) g.names
    pub distinct : Map.Distinct g.sessions
    pub distinct_names : Map.Distinct g.names
    pub bounded : length g.sessions ≤ g.max_sessions

  generate-IsSound : (g : SessionManager V B) → IsSound g → IsSound (Manager.generate_id V B g).1
  unfolding Manager.generate_id
  generate-IsSound g h = record {
    ids = h.ids;
    alive = h.alive;
    distinct = h.distinct;
    distinct_names = h.distinct_names;
    bounded = h.bounded;
  }

  -- Inserting a session keeps every key alive.
  alive-insert :
      (id : Text) (s : PtySession V B) (sessions : List (Text × PtySession V B)) (e : Text × Text)
      → Map.contains_key e.1 sessions ≡ true
      → Map.contains_key e.1 (Map.insert id s sessions) ≡ true
  alive-insert id s sessions e h = ground (arith, Map.contains_key-insert id e.1 s sessions)

  IsSound-with_sessions :
      (id : Text) (s : PtySession V B) (g : SessionManager V B)
      → s.id ≡ id
      → length (Map.insert id s g.sessions) ≤ g.max_sessions
      → IsSound g
      → IsSound (record g { sessions = Map.insert id s g.sessions })
  IsSound-with_sessions id s g own fits h = record {
    ids = Map.All-insert (HasId V B) id s g.sessions own h.ids;
    alive =
        Map.All_map (IsAlive g) (λ e. Map.contains_key e.1 (Map.insert id s g.sessions) ≡ true)
          g.names (alive-insert id s g.sessions) h.alive;
    distinct = Map.insert-Distinct id s g.sessions h.distinct;
    distinct_names = h.distinct_names;
    bounded = fits;
  }

  length-insert_bound :
      (id : Text) (s : PtySession V B) (sessions : List (Text × PtySession V B)) (max : ℕ)
      → leb max (length sessions) ≡ false
      → length (Map.insert id s sessions) ≤ max
  length-insert_bound id s sessions max h = ground (arith, Map.length-insert id s sessions)

  add-IsSound :
      (s : PtySession V B) (g : SessionManager V B)
      → IsSound g
      → IsSound (Manager.add_session V B s g).1
  unfolding Manager.add_session
  add-IsSound s g h = elim (Bool-cases (leb g.max_sessions (length g.sessions))) [
    | inl full ↦ rw full h
    | inr room ↦ rw room (
        IsSound-with_sessions s.id s g refl
          (length-insert_bound s.id s g.sessions g.max_sessions room) h)
  ]

  add_named-IsSound :
      (s : PtySession V B) (name : Text) (g : SessionManager V B)
      → IsSound g
      → IsSound (Manager.add_session_with_name V B s name g).1
  unfolding Manager.add_session_with_name
  add_named-IsSound s name g h = elim (Bool-cases (Map.contains_key name g.names)) [
    | inl taken ↦ rw taken h
    | inr free ↦ elim (Bool-cases (leb g.max_sessions (length g.sessions))) [
      | inl full ↦ rw (free, full) h
      | inr room ↦
          let s' : PtySession V B = Session.set_name V B name s in
          let own : s'.id ≡ s.id = unfold Session.set_name in refl in
          let sound =
            IsSound-with_sessions s.id s' g own
              (length-insert_bound s.id s' g.sessions g.max_sessions room) h in
          rw (free, room)
            (record {
              ids = sound.ids;
              alive =
                  Map.All-insert (λ e. Map.contains_key e.1 (Map.insert s.id s' g.sessions) ≡ true)
                    name s.id g.names
                    (ground
                      (arith, Map.contains_key-insert s.id s.id s' g.sessions, text_eq_refl s.id))
                    sound.alive;
              distinct = sound.distinct;
              distinct_names = Map.insert-Distinct name s.id g.names h.distinct_names;
              bounded = sound.bounded;
            })
    ]
  ]

  -- A session that is there can be put back: the number of sessions stays.
  put_known :
      (id : Text) (s t : PtySession V B) (g : SessionManager V B)
      → Map.get id g.sessions ≡ some s
      → t.id ≡ s.id
      → IsSound g
      → IsSound (record g { sessions = Map.insert id t g.sessions })
  put_known id s t g found same h =
      IsSound-with_sessions id t g (same ∙ Map.All-get (HasId V B) id s g.sessions h.ids found)
        (unfold Map.contains_key in ground (arith, Map.length-insert id t g.sessions, h.bounded)) h

  -- `get` returns a session of the map, under its identifier.
  get_known :
      (key : Text) (s : PtySession V B) (g : SessionManager V B)
      → IsSound g
      → Manager.get V B key g ≡ ok s
      → Map.get s.id g.sessions ≡ some s
  unfolding Manager.get
  get_known key s g h e = elim (Option-cases (Map.get key g.sessions)) [
    | inr (t, found) ↦
        let same : t ≡ s = ground arith in
        subst (λ x. Map.get x.id g.sessions ≡ some x) same
          (subst (λ k. Map.get k g.sessions ≡ some t)
            (sym (Map.All-get (HasId V B) key t g.sessions h.ids found)) found)
    | inl absent ↦ elim (Option-cases (Map.get key g.names)) [
      | inl unnamed ↦ absurd (ground arith)
      | inr (id, alias) ↦ elim (Option-cases (Map.get id g.sessions)) [
        | inl gone ↦ absurd (ground arith)
        | inr (t, found) ↦
            let same : t ≡ s = ground arith in
            subst (λ x. Map.get x.id g.sessions ≡ some x) same
              (subst (λ k. Map.get k g.sessions ≡ some t)
                (sym (Map.All-get (HasId V B) id t g.sessions h.ids found)) found)
      ]
    ]
  ]

  changed-IsSound :
      (key : Text) (s t : PtySession V B) (g : SessionManager V B)
      → Manager.get V B key g ≡ ok s
      → t.id ≡ s.id
      → IsSound g
      → IsSound (Manager.put_back V B t g)
  unfolding Manager.put_back
  changed-IsSound key s t g e same h = put_known t.id s t g (rw same (get_known key s g h e)) same h

  removed-IsSound :
      (id : Text) (g : SessionManager V B) → IsSound g → IsSound (Manager.removed V B id g)
  removed-IsSound id g h = record {
    ids = Map.All-remove (HasId V B) id g.sessions h.ids;
    alive =
        Map.All_map (λ e. IsAlive g e × (not (text_eq e.1 id) ≡ true))
          (λ e. Map.contains_key e.1 (Map.remove id g.sessions) ≡ true)
          (Map.retain_values (λ v. not (text_eq v id)) g.names)
          (λ e p.
            ground (arith, p.0, p.1, Map.contains_key-remove id e.1 g.sessions, text_eq_sym id e.1))
          (Map.All-retain_values (IsAlive g) (λ v. not (text_eq v id)) g.names h.alive);
    distinct = Map.remove-Distinct id g.sessions h.distinct;
    distinct_names = Map.retain_values-Distinct (λ v. not (text_eq v id)) g.names h.distinct_names;
    bounded = omega (arith, Map.length-remove-le id g.sessions, h.bounded);
  }

  id-kill : (s : PtySession V B) → (Session.kill V B s).1.id ≡ s.id
  unfolding Session.kill Session.update_status
  id-kill s = ground arith

  after_kill-IsSound :
      (id : Text) (g : SessionManager V B) (s t : PtySession V B)
      (result : Result PtyError (Unit {0}))
      → Map.get id g.sessions ≡ some s
      → t.id ≡ s.id
      → IsSound g
      → IsSound (Manager.after_kill V B id g (result, t)).1
  after_kill-IsSound id g s t (ok _) found same h = removed-IsSound id g h
  after_kill-IsSound id g s t (err e) found same h = put_known id s t g found same h

  kill_known-IsSound :
      (key id : Text) (g : SessionManager V B) (o : Option (PtySession V B))
      → Map.get id g.sessions ≡ o
      → IsSound g
      → IsSound (Manager.kill_known V B key id g o).1
  kill_known-IsSound key id g none found h = h
  kill_known-IsSound key id g (some s) found h = elim (Bool-cases (is_running s.status)) [
    | inl alive ↦
        let (result, t) = Session.kill V B s in
        rw alive (after_kill-IsSound id g s t result found (id-kill s) h)
    | inr over ↦ rw over (removed-IsSound id g h)
  ]

  kill-IsSound :
      (key : Text) (g : SessionManager V B) → IsSound g → IsSound (Manager.kill_session V B key g).1
  unfolding Manager.kill_session
  kill-IsSound key g h = elim (Result-cases (Manager.resolve_id V B key g)) [
    | inr (why, unknown) ↦ rw (unknown, Manager.kill_session) h
    | inl (id, known) ↦
        rw (known, Manager.kill_session)
          (kill_known-IsSound key id g (Map.get id g.sessions) refl h)
  ]

  pump-IsSound :
      (m : Moment) (g : SessionManager V B) → IsSound g → IsSound (Manager.pump_all V B m g).1
  unfolding Manager.pump_all
  pump-IsSound m g h = record {
    ids = pump_sessions_keeps V B m g.sessions h.ids;
    alive =
        Map.All_map (IsAlive g)
          (λ e. Map.contains_key e.1 (Manager.pump_sessions V B m g.sessions).1 ≡ true) g.names
          (λ e a. contains_key-pump_sessions V B e.1 m g.sessions ∙ a) h.alive;
    distinct = Distinct-pump_sessions V B m g.sessions h.distinct;
    distinct_names = h.distinct_names;
    bounded = omega (arith, length-pump_sessions V B m g.sessions, h.bounded);
  }

  Step-IsSound : {g h : SessionManager V B} → Step g h → IsSound g → IsSound h
  Step-IsSound (generated g) h = generate-IsSound g h
  Step-IsSound (added s g) h = add-IsSound s g h
  Step-IsSound (named s name g) h = add_named-IsSound s name g h
  Step-IsSound (changed key s t g e same) h = changed-IsSound key s t g e same h
  Step-IsSound (killed key g) h = kill-IsSound key g h
  Step-IsSound (pumped m g) h = pump-IsSound m g h

  Reach-keeps : {g h : SessionManager V B} → Reach g h → IsSound g → IsSound h
  Reach-keeps start h = h
  Reach-keeps (next r st) h = Step-IsSound st (Reach-keeps r h)

  -- From an empty manager, after any operations: every session stands under its own identifier,
  -- every name leads to a session that is there, no identifier and no name stands twice, and
  -- there are at most as many sessions as allowed.
  pub manager_Reach-IsSound :
      (max : ℕ) {g : SessionManager V B} → Reach (Manager.with_max_sessions V B max) g → IsSound g
  manager_Reach-IsSound max r = Reach-keeps r (
      unfold Manager.with_max_sessions in
      record { ids = tt; alive = tt; distinct = tt; distinct_names = tt; bounded = omega arith })
