-- ===== src/InjectedEnter/Patience.antt =====
-- How long an entry lives, and when it sends.
use tttt.Base.{
  ℕ, suc, ◌+◌, ◌-◌, ◌≤◌, ◌<◌, ◌≡◌, refl, Bool, true, false, Option, none, some, List, [], ◌∷◌, ltb,
  leb, ◌==◌, Result, ok, err, arith, Bool-cases, Result-cases, inl, inr, ◌⊎◌,
}
use tttt.Base.Text.{Text, codes}
use tttt.Pty.Backend.{PtyBackend, PtyError}
use tttt.Pty.Screen.{Vt100}
use tttt.Pty.Session
use tttt.Pty.Session.{PtySession, Moment, is_running}
use tttt.Pty.Manager
use tttt.Pty.Manager.{SessionManager}
use tttt.InjectedEnter
use tttt.InjectedEnter.{PendingEnter, max_checks}
use tttt.InjectedEnter.Guard.{after_send, check_again-sends}
use tttt.InjectedEnter.Screen.{ScreenReader, input_matches}

-- The rounds that an entry can still survive.
abbrev pub patience : PendingEnter → ℕ
patience e = elim e.quiet_since [ none ↦ 4 | some since ↦ 3 - e.checks ]

-- A new entry, and one whose retries are counted by its checks.
abbrev pub IsPatient : PendingEnter → Type 0
IsPatient e = (e.retries ≤ e.checks) × (e.checks ≤ elim e.quiet_since [ none ↦ 0 | some since ↦ 3 ])

module _ (V : Vt100) (R : ScreenReader V) (B : PtyBackend) where
  -- The entry that a round leaves: a survivor has less patience.
  abbrev Wears : PendingEnter → Option PendingEnter → Type 0
  Wears e none = Unit
  Wears e (some e') = IsPatient e' × (patience e' < patience e)

  armed-Wears :
      (now : ℕ) (owned : Bool) (e : PendingEnter) (g : SessionManager V B)
      (sent : Result PtyError (Unit {0}) × PtySession V B)
      → e.quiet_since ≡ none
      → IsPatient e
      → Wears e (InjectedEnter.armed V R B now owned e g sent).entry
  armed-Wears now owned e g (err why, s) fresh h = tt
  armed-Wears now true e g (ok _, s) fresh h = ground arith
  armed-Wears now false e g (ok _, s) fresh h = tt

  retried-Wears :
      (now since : ℕ) (e : PendingEnter) (g : SessionManager V B)
      (sent : Result PtyError (Unit {0}) × PtySession V B)
      → e.quiet_since ≡ some since
      → (e.checks == max_checks) ≡ false
      → IsPatient e
      → Wears e (InjectedEnter.retried V R B now e g sent).entry
  retried-Wears now since e g (err why, s) watched more h = tt
  retried-Wears now since e g (ok _, s) watched more h = ground arith

  check_again-Wears :
      (now : ℕ) (m : Moment) (waiting : Text → Bool) (e : PendingEnter) (since : ℕ)
      (g : SessionManager V B) (s : PtySession V B)
      → e.quiet_since ≡ some since
      → IsPatient e
      → Wears e (InjectedEnter.check_again V R B now m waiting e since g s).entry
  unfolding InjectedEnter.check_again
  check_again-Wears now m waiting e since g s watched h = elim (Bool-cases (is_running s.status)) [
    | inr over ↦ rw over tt
    | inl alive ↦ elim (Bool-cases (InjectedEnter.owns V R B waiting e s)) [
      | inr lost ↦ rw (alive, lost) tt
      | inl own ↦ elim (Bool-cases (input_matches V R B s e.text)) [
        | inr changed ↦ rw (alive, own, changed) tt
        | inl same ↦ elim (Bool-cases (e.checks == max_checks)) [
          | inl last ↦ rw (alive, own, same, last) tt
          | inr more ↦ elim (Bool-cases (leb (now - since) (Session.idle_at V B now s))) [
            | inl quiet ↦
                rw (alive, own, same, more, quiet)
                  (retried-Wears now since e g (Session.send_keys V B m (codes "[ENTER]") s) watched
                    more h)
            | inr busy ↦ rw (alive, own, same, more, busy) (ground arith)
          ]
        ]
      ]
    ]
  ]

  found-Wears :
      (now : ℕ) (m : Moment) (waiting : Text → Bool) (e : PendingEnter) (g : SessionManager V B)
      (o : Option ℕ) (s : PtySession V B)
      → e.quiet_since ≡ o
      → IsPatient e
      → Wears e (InjectedEnter.found V R B now m waiting e g o s).entry
  unfolding InjectedEnter.first_enter
  found-Wears now m waiting e g none s fresh h =
      armed-Wears now (InjectedEnter.owns V R B waiting e s) e g
        (Session.send_keys V B m (codes "[ENTER]") s) fresh h
  found-Wears now m waiting e g (some since) s watched h =
      check_again-Wears now m waiting e since g s watched h

  -- A round at which the entry is due wears it.
  drain_enter-Wears :
      (now : ℕ) (m : Moment) (waiting : Text → Bool) (e : PendingEnter) (g : SessionManager V B)
      → ltb now e.fire_at ≡ false
      → IsPatient e
      → Wears e (InjectedEnter.drain_enter V R B now m waiting e g).entry
  unfolding InjectedEnter.drain_enter
  drain_enter-Wears now m waiting e g due h =
      rw due (elim (Result-cases (Manager.get V B e.session_id g)) [
        | inr (why, absent) ↦ rw absent tt
        | inl (s, there) ↦ rw there (found-Wears now m waiting e g e.quiet_since s refl h)
      ])

  drain_enter-early :
      (now : ℕ) (m : Moment) (waiting : Text → Bool) (e : PendingEnter) (g : SessionManager V B)
      → ltb now e.fire_at ≡ true
      → (InjectedEnter.drain_enter V R B now m waiting e g).entry ≡ some e
  unfolding InjectedEnter.drain_enter
  drain_enter-early now m waiting e g early = rw early

  drain_enter-idle :
      (now : ℕ) (m : Moment) (waiting : Text → Bool) (e : PendingEnter) (g : SessionManager V B)
      → ltb now e.fire_at ≡ true
      → (InjectedEnter.drain_enter V R B now m waiting e g).sessions ≡ g
  unfolding InjectedEnter.drain_enter
  drain_enter-idle now m waiting e g early = rw early refl

  -- What the surroundings of a round are: anything.
  pub record Turn : Type 0 where
    pub now : ℕ
    pub moment : Moment
    pub waiting : Text → Bool
    pub sessions : SessionManager V B

  abbrev round : Turn → PendingEnter → Option PendingEnter
  round t e = (InjectedEnter.drain_enter V R B t.now t.moment t.waiting e t.sessions).entry

  abbrev counted : Bool → Option PendingEnter × ℕ → Option PendingEnter × ℕ
  counted true (o, n) = (o, n)
  counted false (o, n) = (o, suc n)

  -- The entry after the rounds, and at how many of them it was due.
  unfoldable pub drain_turns : List Turn → Option PendingEnter → Option PendingEnter × ℕ
  drain_turns [] o = (o, 0)
  drain_turns (t ∷ ts) none = (none, 0)
  drain_turns (t ∷ ts) (some e) = counted (ltb t.now e.fire_at) (drain_turns ts (round t e))

  -- What survives has as much less patience as there were rounds at which it was due; what is gone
  -- was due once more at most.
  abbrev Lasts : ℕ → PendingEnter → Option PendingEnter → Type 0
  Lasts n e none = n ≤ suc (patience e)
  Lasts n e (some e') = IsPatient e' × (n + patience e' ≤ patience e)

  Lasts-weaken :
      (n : ℕ) (e e1 : PendingEnter) (o : Option PendingEnter)
      → patience e1 < patience e
      → Lasts n e1 o
      → Lasts (suc n) e o
  Lasts-weaken n e e1 none lt h = omega arith
  Lasts-weaken n e e1 (some e') lt h = (h.0, omega (arith, h.1))

  drain_turns-none : (ts : List Turn) → drain_turns ts none ≡ (none, 0)
  unfolding drain_turns
  drain_turns-none [] = refl
  drain_turns-none (t ∷ ts) = refl

  after_round :
      (ts : List Turn) (e : PendingEnter) (o : Option PendingEnter)
      → ((e1 : PendingEnter)
          → IsPatient e1
          → Lasts (drain_turns ts (some e1)).1 e1 (drain_turns ts (some e1)).0)
      → Wears e o
      → Lasts (suc (drain_turns ts o).1) e (drain_turns ts o).0
  after_round ts e none ih w = rw (drain_turns-none ts) (omega arith)
  after_round ts e (some e1) ih w =
      Lasts-weaken (drain_turns ts (some e1)).1 e e1 (drain_turns ts (some e1)).0 w.1 (ih e1 w.0)

  drain_turns-Lasts :
      (ts : List Turn) (e : PendingEnter)
      → IsPatient e
      → Lasts (drain_turns ts (some e)).1 e (drain_turns ts (some e)).0
  unfolding drain_turns
  drain_turns-Lasts [] e h = (h, omega arith)
  drain_turns-Lasts (t ∷ ts) e h = elim (Bool-cases (ltb t.now e.fire_at)) [
    | inl early ↦
        rw (early, drain_enter-early t.now t.moment t.waiting e t.sessions early)
          (drain_turns-Lasts ts e h)
    | inr due ↦ rw due (
        after_round ts e (round t e) (λ e1 h1. drain_turns-Lasts ts e1 h1)
          (drain_enter-Wears t.now t.moment t.waiting e t.sessions due h))
  ]

  -- How often rounds send Enter for an entry: each leaves all sessions as they are, or sends Enter
  -- once to the session of the entry and does nothing else to the sessions.
  pub data Sends : ℕ → List Turn → Option PendingEnter → Type 0 where
    gone : (ts : List Turn) → Sends 0 ts none
    ended : (e : PendingEnter) → Sends 0 [] (some e)
    silent :
        (n : ℕ) (t : Turn) (ts : List Turn) (e : PendingEnter)
        → (InjectedEnter.drain_enter V R B t.now t.moment t.waiting e t.sessions).sessions
          ≡ t.sessions
        → Sends n ts (round t e)
        → Sends n (t ∷ ts) (some e)
    sent :
        (n : ℕ) (t : Turn) (ts : List Turn) (e : PendingEnter) (s : PtySession V B)
        → Manager.get V B e.session_id t.sessions ≡ ok s
        → (InjectedEnter.drain_enter V R B t.now t.moment t.waiting e t.sessions).sessions
          ≡ after_send V R B t.moment s t.sessions
        → Sends n ts (round t e)
        → Sends (suc n) (t ∷ ts) (some e)

  -- Nothing, or one Enter, which an entry without patience does not send.
  abbrev Sent :
      Moment → PendingEnter → PtySession V B → SessionManager V B → SessionManager V B → Type 0
  Sent m e s g h = (h ≡ g) ⊎ ((1 ≤ patience e) × (h ≡ after_send V R B m s g))

  armed-sends :
      (now : ℕ) (owned : Bool) (e : PendingEnter) (g : SessionManager V B)
      (done : Result PtyError (Unit {0}) × PtySession V B)
      → (InjectedEnter.armed V R B now owned e g done).sessions ≡ Manager.put_back V B done.1 g
  armed-sends now owned e g (err why, s) = refl
  armed-sends now true e g (ok _, s) = refl
  armed-sends now false e g (ok _, s) = refl

  found-Sent :
      (now : ℕ) (m : Moment) (waiting : Text → Bool) (e : PendingEnter) (g : SessionManager V B)
      (o : Option ℕ) (s : PtySession V B)
      → e.quiet_since ≡ o
      → IsPatient e
      → Sent m e s g (InjectedEnter.found V R B now m waiting e g o s).sessions
  unfolding InjectedEnter.first_enter
  found-Sent now m waiting e g none s fresh h = inr (
    ground arith,
    armed-sends now (InjectedEnter.owns V R B waiting e s) e g
        (Session.send_keys V B m (codes "[ENTER]") s),
  )
  found-Sent now m waiting e g (some since) s watched h =
      elim (check_again-sends V R B now m waiting e since g s) [
        | inl same ↦ inl same
        | inr (may, send) ↦ inr (ground (arith, may.checks_left), send)
      ]

  drain_enter-Sent :
      (t : Turn) (e : PendingEnter)
      → IsPatient e
      → let h = (InjectedEnter.drain_enter V R B t.now t.moment t.waiting e t.sessions).sessions in
        (h ≡ t.sessions)
        ⊎ ((s : PtySession V B) × (Manager.get V B e.session_id t.sessions ≡ ok s)
            × (1 ≤ patience e)
            × (h ≡ after_send V R B t.moment s t.sessions))
  unfolding InjectedEnter.drain_enter
  drain_enter-Sent t e h = elim (Bool-cases (ltb t.now e.fire_at)) [
    | inl early ↦ inl (rw early refl)
    | inr due ↦ elim (Result-cases (Manager.get V B e.session_id t.sessions)) [
      | inr (why, absent) ↦ inl (rw (due, absent) refl)
      | inl (s, there) ↦
          elim (found-Sent t.now t.moment t.waiting e t.sessions e.quiet_since s refl h) [
            | inl same ↦ inl (rw (due, there) same)
            | inr (left, send) ↦ inr (s, there, left, rw (due, there) send)
          ]
    ]
  ]

  -- So many Enters at most are sent behind a round that leaves the entry or not.
  abbrev Remaining : List Turn → PendingEnter → Option PendingEnter → Type 0
  Remaining ts e o = (n : ℕ) × ((n ≡ 0) ⊎ (suc n ≤ patience e)) × Sends n ts o

  abbrev Bounded : List Turn → PendingEnter → Type 0
  Bounded ts e = (n : ℕ) × (n ≤ patience e) × Sends n ts (some e)

  remaining :
      (ts : List Turn) (e : PendingEnter) (o : Option PendingEnter)
      → ((e1 : PendingEnter) → IsPatient e1 → Bounded ts e1)
      → Wears e o
      → Remaining ts e o
  remaining ts e none ih w = (0, inl refl, gone ts)
  remaining ts e (some e1) ih w =
      let (n, le, sends) = ih e1 w.0 in (n, inr (omega (arith, le, w.1)), sends)

  due-Bounded :
      (t : Turn) (ts : List Turn) (e : PendingEnter)
      → IsPatient e
      → Remaining ts e (round t e)
      → Bounded (t ∷ ts) e
  due-Bounded t ts e h (n, le, rest) = elim (drain_enter-Sent t e h) [
    | inl same ↦ (n, ground arith, silent n t ts e same rest)
    | inr (s, there, left, send) ↦ (suc n, ground arith, sent n t ts e s there send rest)
  ]

  drain_turns-Bounded : (ts : List Turn) (e : PendingEnter) → IsPatient e → Bounded ts e
  drain_turns-Bounded [] e h = (0, omega arith, ended e)
  drain_turns-Bounded (t ∷ ts) e h = elim (Bool-cases (ltb t.now e.fire_at)) [
    | inl early ↦
        let (n, le, rest) = drain_turns-Bounded ts e h in
        let stays = drain_enter-early t.now t.moment t.waiting e t.sessions early in
        (
          n,
          le,
          silent n t ts e (drain_enter-idle t.now t.moment t.waiting e t.sessions early)
              (rw stays rest),
        )
    | inr due ↦ due-Bounded t ts e h (
        remaining ts e (round t e) (λ e1 h1. drain_turns-Bounded ts e1 h1)
          (drain_enter-Wears t.now t.moment t.waiting e t.sessions due h))
  ]

  -- One where the entry is still there.
  abbrev pub count : Option PendingEnter → ℕ
  count none = 0
  count (some e) = 1

  due-count :
      (n : ℕ) (e : PendingEnter) (o : Option PendingEnter)
      → Lasts n e o
      → n + count o ≤ suc (patience e)
  due-count n e none h = omega arith
  due-count n e (some e') h = omega (arith, h.1)

  -- Whatever the clock, the sessions and the pending input are at each round: the entry for an
  -- injected text is due at no more than five rounds, and at no more than four while it is still
  -- there. Each round leaves the sessions as they are, or sends Enter once to the session of the
  -- entry; at no more than four rounds it sends.
  pub entry_ends :
      (s : PtySession V B) (text : Text) (now : ℕ) (ts : List Turn)
      → let first = InjectedEnter.new V B s text now in
        let (o, due) = drain_turns ts (some first) in
        (due + count o ≤ 5) × ((n : ℕ) × (n ≤ 4) × Sends n ts (some first))
  unfolding InjectedEnter.new
  entry_ends s text now ts =
      let first : PendingEnter = InjectedEnter.new V B s text now in
      (
        due-count _ first _ (drain_turns-Lasts ts first (omega arith, omega arith)),
        drain_turns-Bounded ts first (omega arith, omega arith),
      )
