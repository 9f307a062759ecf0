-- ===== src/InjectedEnter/Guard.antt =====
-- When an entry sends another Enter.
use tttt.Base.{
  ℕ, ◌-◌, ◌≡◌, refl, Bool, true, false, Option, none, some, ltb, leb, ◌==◌, Result, ok, err,
  Bool-cases, Result-cases, inl, inr, ◌⊎◌, arith,
}
use tttt.Base.Text.{Text, codes}
use tttt.Pty.Backend.{PtyBackend, PtyError}
use tttt.Pty.Screen.{Vt100}
use tttt.Pty.Session
use tttt.Pty.Session.{PtySession, Moment, is_running}
use tttt.Pty.Manager
use tttt.Pty.Manager.{SessionManager}
use tttt.InjectedEnter
use tttt.InjectedEnter.{PendingEnter, max_checks}
use tttt.InjectedEnter.Screen.{ScreenReader, input_matches}

module _ (V : Vt100) (R : ScreenReader V) (B : PtyBackend) where
  -- The session runs, no input came since the last Enter and none waits, the text still stands in
  -- the input, checks are left, and no output came since the last check.
  pub record MaySend (now : ℕ) (waiting : Text → Bool) (e : PendingEnter) (since : ℕ)
      (s : PtySession V B) : Type 0 where
    pub running : is_running s.status ≡ true
    pub untouched : s.last_input_time ≡ e.input_at
    pub not_waiting : waiting e.session_id ≡ false
    pub pending : input_matches V R B s e.text ≡ true
    pub checks_left : (e.checks == max_checks) ≡ false
    pub quiet : leb (now - since) (Session.idle_at V B now s) ≡ true

  -- The sessions that a send leaves.
  abbrev pub after_send : Moment → PtySession V B → SessionManager V B → SessionManager V B
  after_send m s g = Manager.put_back V B (Session.send_keys V B m (codes "[ENTER]") s).1 g

  retried-sends :
      (now : ℕ) (e : PendingEnter) (g : SessionManager V B)
      (sent : Result PtyError (Unit {0}) × PtySession V B)
      → (InjectedEnter.retried V R B now e g sent).sessions ≡ Manager.put_back V B sent.1 g
  retried-sends now e g (err why, s) = refl
  retried-sends now e g (ok _, s) = refl

  pub check_again-sends :
      (now : ℕ) (m : Moment) (waiting : Text → Bool) (e : PendingEnter) (since : ℕ)
      (g : SessionManager V B) (s : PtySession V B)
      → ((InjectedEnter.check_again V R B now m waiting e since g s).sessions ≡ g)
        ⊎ (MaySend now waiting e since s
            × ((InjectedEnter.check_again V R B now m waiting e since g s).sessions
                ≡ after_send m s g))
  unfolding InjectedEnter.check_again
  check_again-sends now m waiting e since g s = elim (Bool-cases (is_running s.status)) [
    | inr over ↦ inl (rw over refl)
    | inl alive ↦ elim (Bool-cases (InjectedEnter.owns V R B waiting e s)) [
      | inr lost ↦ inl (rw (alive, lost) refl)
      | inl own ↦ elim (Bool-cases (input_matches V R B s e.text)) [
        | inr changed ↦ inl (rw (alive, own, changed) refl)
        | inl same ↦ elim (Bool-cases (e.checks == max_checks)) [
          | inl last ↦ inl (rw (alive, own, same, last) refl)
          | inr more ↦ elim (Bool-cases (leb (now - since) (Session.idle_at V B now s))) [
            | inr busy ↦ inl (rw (alive, own, same, more, busy) refl)
            | inl quiet ↦ inr (
              record {
                running = alive;
                untouched = ground arith;
                not_waiting = ground arith;
                pending = same;
                checks_left = more;
                quiet = quiet;
              },
              rw (alive, own, same, more, quiet) (retried-sends now e g _),
            )
          ]
        ]
      ]
    ]
  ]

  found_again :
      (now : ℕ) (m : Moment) (waiting : Text → Bool) (e : PendingEnter) (since : ℕ)
      (g h : SessionManager V B) (s : PtySession V B) (o : Option ℕ)
      → o ≡ some since
      → (InjectedEnter.check_again V R B now m waiting e since g s).sessions ≡ h
      → (InjectedEnter.found V R B now m waiting e g o s).sessions ≡ h
  found_again now m waiting e since g h s none k same = absurd (ground arith)
  found_again now m waiting e since g h s (some t) k same =
      let eq : t ≡ since = ground arith in rw eq same

  -- Behind the first Enter, a round changes no session but by sending Enter to the session of the
  -- entry, and that only if the session runs, no input came since the last Enter and none waits,
  -- the text still stands in the input, checks are left, and no output came since the last check.
  pub resend_guarded :
      (now : ℕ) (m : Moment) (waiting : Text → Bool) (e : PendingEnter) (since : ℕ)
      (g : SessionManager V B)
      → e.quiet_since ≡ some since
      → ((InjectedEnter.drain_enter V R B now m waiting e g).sessions ≡ g)
        ⊎ ((s : PtySession V B) × (Manager.get V B e.session_id g ≡ ok s)
            × MaySend now waiting e since s
            × ((InjectedEnter.drain_enter V R B now m waiting e g).sessions ≡ after_send m s g))
  unfolding InjectedEnter.drain_enter
  resend_guarded now m waiting e since g watched = elim (Bool-cases (ltb now e.fire_at)) [
    | inl early ↦ inl (rw early refl)
    | inr due ↦ elim (Result-cases (Manager.get V B e.session_id g)) [
      | inr (why, absent) ↦ inl (rw (due, absent) refl)
      | inl (s, there) ↦ elim (check_again-sends now m waiting e since g s) [
        | inl same ↦
            inl
              (rw (due, there) (found_again now m waiting e since g g s e.quiet_since watched same))
        | inr (may, sent) ↦ inr (
          s,
          there,
          may,
          rw (due, there) (found_again now m waiting e since g _ s e.quiet_since watched sent),
        )
      ]
    ]
  ]
