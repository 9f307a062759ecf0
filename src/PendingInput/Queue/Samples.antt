-- ===== src/PendingInput/Queue/Samples.antt =====
-- A queue over the test backend.
use tttt.Base.{
  ℕ, ◌≤◌, ◌≡◌, refl, true, none, some, List, [], ◌∷◌, ◌++◌, map, length, take, All, ok, err, ◌≢◌,
  Result, arith, sym, ap, ◌∙◌, take-append, append-nil,
}
use tttt.Base.Text.{codes}
use tttt.Pty.Keys.{process_special_keys}
use tttt.Pty.Backend.{PtyError, mock_new, mock}
use tttt.Pty.Plain.{terminal, noon}
use tttt.Pty.Session
use tttt.Pty.Session.{PtySession, is_running}
use tttt.Scheduler.{SchedulerEvent, reminder_fired}
use tttt.PendingInput.Queue
use tttt.PendingInput.Queue.{SchedulerInput, event_text, is_empty_input}
use tttt.PendingInput.Queue.Conserve
use tttt.PendingInput.Queue.Conserve.{Accounts, IsReady, Keeps, remaining, drain-Keeps}
use tttt.PendingInput.Queue.Progress.{send_scheduler_adds}
use tttt.PendingInput.Queue.Complete
use tttt.PendingInput.Queue.Complete.{Takes, drained_in_time}

abbrev taken : ℕ → Result PtyError ℕ
taken n = ok n

take_all {ℓ} : {A : Type ℓ} (n : ℕ) (xs : List A) → length xs ≡ n → take n xs ≡ xs
take_all n xs h =
    sym (ap (λ k. take k xs) h)
    ∙ (ap (λ ys. take (length xs) ys) (sym (append-nil xs)) ∙ take-append xs [])

mock_accepted :
    (bytes written : List ℕ) (n : ℕ)
    → ok (length bytes) ≡ taken n
    → (n ≤ length bytes) × (written ++ bytes ≡ written ++ take n bytes)
mock_accepted bytes written n h =
    let whole : length bytes ≡ n = ground arith in
    (omega (arith, whole), ap (λ t. written ++ t) (sym (take_all n bytes whole)))

never_refused : (n : ℕ) (why : PtyError) → taken n ≢ err why
never_refused n why h = ground arith

-- The test backend takes all of a write.
abbrev accounts : Accounts mock
accounts = record {
  written = λ p. p.input_buf;
  accepted = λ bytes p n h. mock_accepted bytes p.input_buf n h;
  refused = λ bytes p why h. absurd (never_refused (length bytes) why h);
}

abbrev takes : Takes mock
takes = record { takes = λ c cs p. (length cs, refl) }

abbrev session : PtySession terminal mock
session = Session.new terminal mock (codes "pty-1") (mock_new 80 24) (codes "sh") 80 24 10

-- "hello" in chunks of two bytes, of which one is written.
abbrev hello : SchedulerInput
hello = record {
  text = codes "[ENTER]hello";
  key_bytes = b'\r' ∷ codes "hello";
  offset = 1;
  chunk_end = 2;
  next_write = 30;
  config = record { bytes = 2; gap = 8 };
}

abbrev line : Queue.Line terminal mock
line = record {
  input = record { user = codes "u"; scheduler = hello ∷ [] };
  session = session;
  enters = [];
}

hello-IsReady : All IsReady (hello ∷ [])
hello-IsReady = ((omega arith, omega arith), tt)

drain-Keeps_example : Keeps terminal mock accounts line (Queue.drain terminal mock 30 noon line).1
drain-Keeps_example = drain-Keeps terminal mock accounts 30 noon line hello-IsReady

abbrev reminder : SchedulerEvent
reminder = reminder_fired (record {
  id = codes "reminder-1";
  message = codes "stand up";
  session_id = none;
  fire_at = some 30;
})

abbrev waiting : Queue.Line terminal mock
waiting = Conserve.line terminal mock accounts [] (hello ∷ []) session []

send_scheduler_adds_example :
    let l' =
      (Queue.send_scheduler terminal mock reminder
        (record { bytes = 2; gap = 8 })
        30
        noon
        waiting).1 in
    (Conserve.account terminal mock accounts l'
      ≡ Conserve.account terminal mock accounts waiting
        ++ process_special_keys (event_text reminder))
    × All IsReady l'.input.scheduler
send_scheduler_adds_example =
    send_scheduler_adds terminal mock accounts reminder (record { bytes = 2; gap = 8 }) 30 noon
      (hello ∷ []) session [] refl hello-IsReady

size : length (remaining line.input) ≤ 10
unfolding remaining Conserve.rest_of
size = omega arith

running : is_running session.status ≡ true
unfolding Session.new
running = refl

drained_in_time_example :
    let l' = Complete.drain_due terminal mock accounts takes noon 10 line in
    (is_empty_input l'.input ≡ true)
    × (accounts.written l'.session.backend
        ≡ accounts.written line.session.backend ++ remaining line.input)
    × (map (λ e. e.text) l'.enters ≡ Conserve.texts terminal mock accounts line)
drained_in_time_example =
    drained_in_time terminal mock accounts takes noon 10 line running hello-IsReady size
