-- ===== src/Pty/Manager/Lookup.antt =====
-- The three ways to look a key up in the manager.
use tttt.Base.{◌≡◌, true, false, arith, ok, err, Option-cases, inl, inr, ◌⊎◌}
use tttt.Base.Text.{Text}
use tttt.Base.Map
use tttt.Pty.Backend.{PtyBackend, session_not_found}
use tttt.Pty.Screen.{Vt100}
use tttt.Pty.Session.{PtySession}
use tttt.Pty.Manager
use tttt.Pty.Manager.{SessionManager}
use tttt.Pty.Manager.Pumping.{HasId}
use tttt.Pty.Manager.Names.{IsAlive, IsSound}

module _ (V : Vt100) (B : PtyBackend) where
  -- In a well-formed manager: a key that `exists` accepts is one under which `get` finds a
  -- session, and `resolve_id` the identifier of that session; both refuse every other key, with
  -- the key in the error.
  pub lookups_agree :
      (key : Text) (g : SessionManager V B)
      → IsSound V B g
      → ((s : PtySession V B) × (Manager.exists V B key g ≡ true)
          × (Manager.get V B key g ≡ ok s)
          × (Manager.resolve_id V B key g ≡ ok s.id))
        ⊎ ((Manager.exists V B key g ≡ false)
            × (Manager.get V B key g ≡ err (session_not_found key))
            × (Manager.resolve_id V B key g ≡ err (session_not_found key)))
  unfolding Manager.exists Manager.get Manager.resolve_id Map.contains_key
  lookups_agree key g h = elim (Option-cases (Map.get key g.sessions)) [
    | inr (s, found) ↦ inl (
      s,
      ground arith,
      ground arith,
      ground (arith, Map.All-get (HasId V B) key s g.sessions h.ids found),
    )
    | inl absent ↦ elim (Option-cases (Map.get key g.names)) [
      | inl unnamed ↦ inr (ground arith, ground arith, ground arith)
      | inr (id, alias) ↦ elim (Option-cases (Map.get id g.sessions)) [
        | inl gone ↦
            let alive = Map.All-get (IsAlive V B g) key id g.names h.alive alias in
            absurd (ground (arith, alive))
        | inr (s, found) ↦ inl (
          s,
          ground arith,
          ground arith,
          ground (arith, Map.All-get (HasId V B) id s g.sessions h.ids found),
        )
      ]
    ]
  ]
