-- ===== src/InjectedEnter/Samples.antt =====
-- An entry on a shell whose prompt still shows the injected text.
use tttt.Base.{ℕ, ◌+◌, ◌*◌, ◌≤◌, ◌≡◌, refl, false, some, List, [], ◌∷◌, ◌⊎◌, ok}
use tttt.Base.Text.{codes}
use tttt.Pty.Backend.{mock_new, mock}
use tttt.Pty.Plain.{terminal, noon}
use tttt.Pty.Session
use tttt.Pty.Session.{PtySession}
use tttt.Pty.Manager
use tttt.Pty.Manager.{SessionManager}
use tttt.InjectedEnter
use tttt.InjectedEnter.{PendingEnter, nanos_per_sec, nanos_per_milli, without_enter}
use tttt.InjectedEnter.Screen.{ScreenReader}
use tttt.InjectedEnter.Patience
use tttt.InjectedEnter.Patience.{entry_ends}
use tttt.InjectedEnter.Guard
use tttt.InjectedEnter.Guard.{resend_guarded}

-- A screen of one row.
abbrev reader : ScreenReader terminal
reader = record {
  live = λ s. s;
  synchronized_output = λ s. false;
  size = λ s. (1, 80);
  rows = λ from width s. s ∷ [];
  hide_cursor = λ s. false;
  row_wrapped = λ row s. false;
  text = λ s. s;
  text_between = λ r c r1 c1 s. s;
}

abbrev shell : PtySession terminal mock
shell = Session.new terminal mock (codes "pty-1") (mock_new 80 24) (codes "sh") 80 24 10

abbrev sessions : SessionManager terminal mock
sessions = (Manager.add_session terminal mock shell (Manager.with_max_sessions terminal mock 4)).1

abbrev first : PendingEnter
first = InjectedEnter.new terminal mock shell (codes "[ENTER]ls") 10

-- At noon, when the first Enter is due.
abbrev turn : Patience.Turn terminal reader mock
turn = record { now = first.fire_at; moment = noon; waiting = λ id. false; sessions = sessions }

abbrev watched : PendingEnter
watched = record {
  session_id = codes "pty-1";
  text = codes "ls";
  fire_at = 10 + 100 * nanos_per_milli + nanos_per_sec;
  input_at = 12;
  quiet_since = some 12;
  checks = 0;
  retries = 0;
}

-- A round at noon, and one before the check that it arms.
abbrev turns : List (Patience.Turn terminal reader mock)
turns = turn ∷ turn ∷ []

entry_ends_example :
    let (o, due) = Patience.drain_turns terminal reader mock turns (some first) in
    (due + Patience.count terminal reader mock o ≤ 5)
    × ((n : ℕ) × (n ≤ 4) × Patience.Sends terminal reader mock n turns (some first))
entry_ends_example = entry_ends terminal reader mock shell (codes "[ENTER]ls") 10 turns

abbrev later : ℕ
later = watched.fire_at

resend_guarded_example :
    ((InjectedEnter.drain_enter terminal reader mock later noon
        (λ id. false)
        watched
        sessions).sessions
      ≡ sessions)
    ⊎ ((s : PtySession terminal mock) × (Manager.get terminal mock (codes "pty-1") sessions ≡ ok s)
        × Guard.MaySend terminal reader mock later (λ id. false) watched 12 s
        × ((InjectedEnter.drain_enter terminal reader mock later noon
              (λ id. false)
              watched
              sessions).sessions
            ≡ Guard.after_send terminal reader mock noon s sessions))
resend_guarded_example =
    resend_guarded terminal reader mock later noon (λ id. false) watched 12 sessions refl
