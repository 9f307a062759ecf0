-- ===== src/Pty/Manager/Pumping.antt =====
-- `pump_all` of crates/tttt-pty/src/manager.rs, which changes the sessions in place.
use tttt.Base.{
  ℕ, ◌≡◌, refl, none, List, [], ◌∷◌, length, arith, ◌∙◌, Result, ok, err, Result-cases, inl, inr,
  All,
}
use tttt.Base.Text.{Text}
use tttt.Base.Map
use tttt.Pty.Backend.{PtyBackend, PtyError}
use tttt.Pty.Screen.{Vt100}
use tttt.Pty.Session
use tttt.Pty.Session.{PtySession, Moment, is_running, buffer_size}
use tttt.Pty.Manager
use tttt.Pty.Manager.{SessionManager}

module _ (V : Vt100) (B : PtyBackend) where
  abbrev pub HasId : Text × PtySession V B → Type 0
  HasId e = e.1.id ≡ e.0

  id-update_status : (s : PtySession V B) → (Session.update_status V B s).1.id ≡ s.id
  unfolding Session.update_status
  id-update_status s = ground arith

  id-take_output :
      (m : Moment) (bytes : List ℕ) (s : PtySession V B)
      → (Session.take_output V B m bytes s).1.id ≡ s.id
  unfolding Session.take_output
  id-take_output m [] s = refl
  id-take_output m (c ∷ cs) s = ground arith

  id-pump_bytes :
      (m : Moment) (bytes : List ℕ) (s : PtySession V B)
      → (Session.pump_bytes V B m bytes s).1.id ≡ s.id
  unfolding Session.pump_bytes
  id-pump_bytes m bytes s =
      ground
        (arith, id-take_output m bytes s, id-update_status (Session.take_output V B m bytes s).1)

  id-pump_raw : (m : Moment) (s : PtySession V B) → (Session.pump_raw V B m s).1.id ≡ s.id
  unfolding Session.pump_raw
  id-pump_raw m s =
      let s' : PtySession V B = record s { backend = (B.read buffer_size s.backend).1 } in
      elim (Result-cases (B.read buffer_size s.backend).0) [
        | inl (bytes, e) ↦ ground (arith, id-pump_bytes m bytes s')
        | inr (why, e) ↦ ground arith
      ]

  pumped-HasId :
      (id : Text) (l : List (Text × PtySession V B)) (result : Result PtyError (List ℕ))
      (t : PtySession V B) (later : Result PtyError (Unit {0}) × List (Text × PtySession V B))
      → t.id ≡ id
      → All HasId l
      → All HasId later.1
      → All HasId (Manager.pumped V B id l (result, t) later).1
  pumped-HasId id l (ok bytes) t (r, l') own h k = (own, k)
  pumped-HasId id l (err why) t later own h k = (own, h)

  -- Pumping changes sessions in place.
  pub pump_sessions_keeps :
      (m : Moment) (l : List (Text × PtySession V B))
      → All HasId l
      → All HasId (Manager.pump_sessions V B m l).1
  unfolding Manager.pump_sessions
  pump_sessions_keeps m [] h = tt
  pump_sessions_keeps m ((id, s) ∷ l) h =
      let (result, t) = Session.pump_raw V B m s in
      pumped-HasId id l result t (Manager.pump_sessions V B m l) (id-pump_raw m s ∙ h.0) h.1
        (pump_sessions_keeps m l h.1)

  pub length-pump_sessions :
      (m : Moment) (l : List (Text × PtySession V B))
      → length (Manager.pump_sessions V B m l).1 ≡ length l
  unfolding Manager.pump_sessions
  length-pump_sessions m [] = refl
  length-pump_sessions m ((id, s) ∷ l) = ground (arith, length-pump_sessions m l)

  pub contains_key-pump_sessions :
      (k : Text) (m : Moment) (l : List (Text × PtySession V B))
      → Map.contains_key k (Manager.pump_sessions V B m l).1 ≡ Map.contains_key k l
  unfolding Manager.pump_sessions Map.contains_key Map.get
  contains_key-pump_sessions k m [] = refl
  contains_key-pump_sessions k m ((id, s) ∷ l) = ground (arith, contains_key-pump_sessions k m l)

  pub Distinct-pump_sessions :
      (m : Moment) (l : List (Text × PtySession V B))
      → Map.Distinct l
      → Map.Distinct (Manager.pump_sessions V B m l).1
  unfolding Manager.pump_sessions
  Distinct-pump_sessions m [] h = tt
  Distinct-pump_sessions m ((id, s) ∷ l) h =
      pumped-Distinct (Session.pump_raw V B m s) (Distinct-pump_sessions m l h.1)
        (unfold Map.contains_key in ground (arith, contains_key-pump_sessions id m l, h.0))
    where
      pumped-Distinct :
          (r : Result PtyError (List ℕ) × PtySession V B)
          → Map.Distinct (Manager.pump_sessions V B m l).1
          → Map.get id (Manager.pump_sessions V B m l).1 ≡ none
          → Map.Distinct (Manager.pumped V B id l r (Manager.pump_sessions V B m l)).1
      pumped-Distinct (ok bytes, t) d absent = (absent, d)
      pumped-Distinct (err why, t) d absent = h
