-- ===== src/PendingInput/Queue/Complete.antt =====
-- While the terminal takes at least a byte of each write, everything pending is written.
use tttt.Base.{
  ℕ, zero, suc, ◌+◌, ◌-◌, ◌≤◌, ◌<◌, ◌≡◌, refl, true, false, List, [], ◌∷◌, ◌++◌, map, ltb, ◌==◌,
  if◌then◌else◌, length, take, drop, All, Result, ok, err, arith, ap, sym, ◌∙◌, Bool-cases, inl,
  inr, ◌⊎◌, length-append, length-drop, length-take, append-nil,
}
use tttt.Pty.Backend.{PtyBackend, PtyError}
use tttt.Pty.Screen.{Vt100}
use tttt.Pty.Session
use tttt.Pty.Session.{PtySession, Moment, is_running}
use tttt.InjectedEnter.{PendingEnter}
use tttt.PendingInput.Queue
use tttt.PendingInput.Queue.{SchedulerInput, next_chunk, is_empty_input}
use tttt.PendingInput.Queue.Conserve
use tttt.PendingInput.Queue.Conserve.{
  Accounts, IsReady, Keeps, rest_of, remaining, texts, drain-Keeps,
}

-- A terminal that is not blocked.
pub record Takes (B : PtyBackend) : Type 0 where
  pub takes :
      (c : ℕ) (cs : List ℕ) (p : B.Pty) → (n : ℕ) × ((B.try_write (c ∷ cs) p).0 ≡ ok (suc n))

zero_or_suc : (n : ℕ) → (n ≡ 0) ⊎ ((j : ℕ) × (n ≡ suc j))
zero_or_suc zero = inl refl
zero_or_suc (suc n) = inr (n, refl)

module _ (V : Vt100) (B : PtyBackend) (A : Accounts B) (T : Takes B) where
  abbrev IsRunning : PtySession V B → Type 0
  IsRunning s = is_running s.status ≡ true

  touched-suc :
      (now : ℕ) (s : PtySession V B) (n : ℕ) (r : Result PtyError ℕ × B.Pty)
      → r.0 ≡ ok (suc n)
      → ((Session.touched V B now s r).0 ≡ ok (suc n))
        × ((Session.touched V B now s r).1.status ≡ s.status)
  touched-suc now s n (err e, p) h = absurd (ground arith)
  touched-suc now s n (ok zero, p) h = absurd (ground arith)
  touched-suc now s n (ok (suc k), p) h = (h, refl)

  try_send_raw-takes :
      (m : Moment) (bytes : List ℕ) (s : PtySession V B)
      → IsRunning s
      → 0 < length bytes
      → (length (A.written s.backend)
          < length (A.written (Session.try_send_raw V B m bytes s).1.backend))
        × IsRunning (Session.try_send_raw V B m bytes s).1
  try_send_raw-takes m [] s alive h = absurd (omega arith)
  try_send_raw-takes m (c ∷ cs) s alive h =
      let (n, k) = T.takes c cs s.backend in
      let t = touched-suc m.now s n (B.try_write (c ∷ cs) s.backend) k in
      let accepted : (Session.try_send_raw V B m (c ∷ cs) s).0 ≡ ok (suc n) =
        unfold Session.try_send_raw in rw alive t.0 in
      let a = Conserve.try_send_raw-accepted V B A m (c ∷ cs) s (suc n) accepted in
      (
        rw a.1 (
            omega (
              arith,
              length-append (A.written s.backend) (take (suc n) (c ∷ cs)),
              length-take (suc n) (c ∷ cs),
              a.0,
            )),
        unfold Session.try_send_raw in rw alive (rw t.1 alive),
      )

  session-wrote :
      (now : ℕ) (i : SchedulerInput) (rest : List SchedulerInput) (l : Queue.Line V B)
      (r : Result PtyError ℕ × PtySession V B)
      → (Queue.wrote V B now i rest l r).1.session ≡ r.1
  session-wrote now i rest l (err e, s) = refl
  session-wrote now i rest l (ok n, s) = elim (Bool-cases (i.offset + n == length i.key_bytes)) [
    | inl done ↦ rw done refl
    | inr more ↦ rw more refl
  ]

  session-wrote_user :
      (l : Queue.Line V B) (r : Result PtyError ℕ × PtySession V B)
      → (Queue.wrote_user V B l r).1.session ≡ r.1
  session-wrote_user l (err e, s) = refl
  session-wrote_user l (ok n, s) = refl

  -- The time from which on the first input may be written.
  abbrev pub deadline : List SchedulerInput → ℕ
  deadline [] = 0
  deadline (i ∷ is) = i.next_write

  abbrev Grows : PtySession V B → PtySession V B → Type 0
  Grows s s' = (length (A.written s.backend) < length (A.written s'.backend)) × IsRunning s'

  drain-Grows :
      (m : Moment) (user : List ℕ) (is : List SchedulerInput) (s : PtySession V B)
      (es : List PendingEnter)
      → IsRunning s
      → All IsReady is
      → 0 < length (remaining (Conserve.line V B A user is s es).input)
      → Grows s (Queue.drain V B (deadline is) m (Conserve.line V B A user is s es)).1.session
  unfolding Queue.drain Queue.drain_scheduler remaining rest_of next_chunk
  drain-Grows m [] [] s es alive h some_left = absurd (omega arith)
  drain-Grows m [] (i ∷ is) s es alive h some_left =
      let due : ltb i.next_write i.next_write ≡ false = ground arith in
      let some_bytes : 0 < length (next_chunk i) = omega (
        arith,
        length-take (i.chunk_end - i.offset) (drop i.offset i.key_bytes),
        length-drop i.offset i.key_bytes,
        h.0,
      ) in
      rw due
        (rw (session-wrote _ i is _ _) (try_send_raw-takes m (next_chunk i) s alive some_bytes))
  drain-Grows m (c ∷ cs) is s es alive h some_left =
      rw (session-wrote_user _ _) (try_send_raw-takes m (c ∷ cs) s alive (omega arith))

  -- One drain at the deadline takes a byte at least from what is pending.
  drain-shrinks :
      (m : Moment) (l : Queue.Line V B) (n : ℕ)
      → IsRunning l.session
      → All IsReady l.input.scheduler
      → length (remaining l.input) ≡ suc n
      → let l' = (Queue.drain V B (deadline l.input.scheduler) m l).1 in
        (length (remaining l'.input) ≤ n) × IsRunning l'.session
  drain-shrinks m l n alive h size =
      let l' = (Queue.drain V B (deadline l.input.scheduler) m l).1 in
      let kept = drain-Keeps V B A (deadline l.input.scheduler) m l h in
      let grown =
        drain-Grows m l.input.user l.input.scheduler l.session l.enters alive h (omega arith) in
      let total : length (Conserve.account V B A l') ≡ length (Conserve.account V B A l) =
        ap length kept.bytes in
      (
        omega (
          arith,
          total,
          grown.0,
          size,
          length-append (A.written l'.session.backend) (remaining l'.input),
          length-append (A.written l.session.backend) (remaining l.input),
        ),
        grown.1,
      )

  -- Drains, each at its deadline, until nothing is pending or the rounds are over.
  unfoldable pub drain_due : Moment → ℕ → Queue.Line V B → Queue.Line V B
  drain_due m zero l = l
  drain_due m (suc n) l =
      let rest = drain_due m n (Queue.drain V B (deadline l.input.scheduler) m l).1 in
      if is_empty_input l.input then l else rest

  empty_remaining :
      (user : List ℕ) (is : List SchedulerInput)
      → All IsReady is
      → length (remaining (record { user = user; scheduler = is })) ≡ 0
      → is_empty_input (record { user = user; scheduler = is }) ≡ true
  unfolding remaining rest_of is_empty_input
  empty_remaining [] [] h k = refl
  empty_remaining [] (i ∷ is) h k = absurd (
      omega (
        arith,
        h.0,
        length-drop i.offset i.key_bytes,
        length-append (drop i.offset i.key_bytes) (rest_of is),
      ))
  empty_remaining (c ∷ cs) is h k = absurd (omega arith)

  nothing_left :
      (user : List ℕ) (is : List SchedulerInput) (s : PtySession V B) (es : List PendingEnter)
      → is_empty_input (record { user = user; scheduler = is }) ≡ true
      → (A.written s.backend ≡ Conserve.account V B A (Conserve.line V B A user is s es))
        × (map (λ e. e.text) es ≡ texts V B A (Conserve.line V B A user is s es))
  unfolding remaining rest_of is_empty_input texts
  nothing_left [] [] s es h = (sym (append-nil _), sym (append-nil _))
  nothing_left [] (i ∷ is) s es h = absurd (ground arith)
  nothing_left (c ∷ cs) is s es h = absurd (ground arith)

  -- On a running session whose terminal takes a byte at least of each write, and with every chunk
  -- within its bytes: after as many drains as there are bytes pending, each at its deadline,
  -- nothing is pending, the terminal was given all that was pending in its order, and the Enter of
  -- each message is queued, in their order.
  pub drained_in_time :
      (m : Moment) (n : ℕ) (l : Queue.Line V B)
      → IsRunning l.session
      → All IsReady l.input.scheduler
      → length (remaining l.input) ≤ n
      → let l' = drain_due m n l in
        (is_empty_input l'.input ≡ true)
        × (A.written l'.session.backend ≡ A.written l.session.backend ++ remaining l.input)
        × (map (λ e. e.text) l'.enters ≡ texts V B A l)
  unfolding drain_due
  drained_in_time m zero l alive h k =
      let gone = empty_remaining l.input.user l.input.scheduler h (omega arith) in
      let all = nothing_left l.input.user l.input.scheduler l.session l.enters gone in
      (gone, all.0, all.1)
  drained_in_time m (suc n) l alive h k = elim (Bool-cases (is_empty_input l.input)) [
    | inl gone ↦
        let all = nothing_left l.input.user l.input.scheduler l.session l.enters gone in
        rw gone (gone, all.0, all.1)
    | inr more ↦ elim (zero_or_suc (length (remaining l.input))) [
      | inl none_left ↦
          let gone = empty_remaining l.input.user l.input.scheduler h none_left in
          absurd (ground arith)
      | inr (j, size) ↦
          let shrunk = drain-shrinks m l j alive h size in
          let kept = drain-Keeps V B A (deadline l.input.scheduler) m l h in
          let rest =
            drained_in_time m n (Queue.drain V B (deadline l.input.scheduler) m l).1 shrunk.1
              kept.ready (omega (arith, shrunk.0)) in
          rw more (rest.0, rest.1 ∙ kept.bytes, rest.2 ∙ kept.messages)
    ]
  ]
