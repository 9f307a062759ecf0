-- ===== src/PendingInput/Queue/Conserve.antt =====
-- Draining writes the bytes that are pending, in their order, each once.
use tttt.Base.{
  ℕ, zero, suc, ◌+◌, ◌-◌, ◌≤◌, ◌<◌, ◌≡◌, refl, true, false, List, [], ◌∷◌, ◌++◌, map, ltb, ◌==◌,
  length, take, drop, All, Result, ok, err, min, max, arith, ap, sym, ◌∙◌, Bool-cases, inl, inr,
  append_assoc, length-drop, length-take, take-append-drop, take-take, drop-drop,
}
use tttt.Base.Text.{Text}
use tttt.Pty.Backend.{PtyBackend, PtyError}
use tttt.Pty.Screen.{Vt100}
use tttt.Pty.Session
use tttt.Pty.Session.{PtySession, Moment, is_running}
use tttt.InjectedEnter
use tttt.InjectedEnter.{PendingEnter, without_enter}
use tttt.PendingInput.{chunk_len_progress}
use tttt.PendingInput.Queue
use tttt.PendingInput.Queue.{SchedulerInput, PendingInput, next_chunk, next_end}

-- What `try_write` promises: of the bytes it takes as many as it says, from the front, and none
-- where it fails. `written` is what the terminal was given so far.
pub record Accounts (B : PtyBackend) : Type 0 where
  pub written : B.Pty → List ℕ
  pub accepted :
      (bytes : List ℕ) (p : B.Pty) (n : ℕ)
      → (B.try_write bytes p).0 ≡ ok n
      → (n ≤ length bytes) × (written (B.try_write bytes p).1 ≡ written p ++ take n bytes)
  pub refused :
      (bytes : List ℕ) (p : B.Pty) (why : PtyError)
      → (B.try_write bytes p).0 ≡ err why
      → written (B.try_write bytes p).1 ≡ written p

-- The bytes of the scheduler's inputs that are still to be written.
unfoldable pub rest_of : List SchedulerInput → List ℕ
rest_of [] = []
rest_of (i ∷ is) = drop i.offset i.key_bytes ++ rest_of is

unfoldable pub remaining : PendingInput → List ℕ
remaining p = p.user ++ rest_of p.scheduler

-- A chunk is being written, and it lies within the bytes.
abbrev pub IsReady : SchedulerInput → Type 0
IsReady i = (i.offset < i.chunk_end) × (i.chunk_end ≤ length i.key_bytes)

-- A part of the chunk that is written, and what is left.
chunk_split :
    (i : SchedulerInput) (n : ℕ)
    → n ≤ length (next_chunk i)
    → take n (next_chunk i) ++ drop (i.offset + n) i.key_bytes ≡ drop i.offset i.key_bytes
unfolding next_chunk
chunk_split i n h =
    let rest = drop i.offset i.key_bytes in
    let fits : n ≤ i.chunk_end - i.offset =
      omega (arith, length-take (i.chunk_end - i.offset) rest) in
    rw (take-take n (i.chunk_end - i.offset) rest fits, ← drop-drop i.offset n i.key_bytes)
      (take-append-drop n rest)

chunk_within :
    (i : SchedulerInput) (n : ℕ)
    → IsReady i
    → n ≤ length (next_chunk i)
    → i.offset + n ≤ i.chunk_end
unfolding next_chunk
chunk_within i n ready h =
    omega (arith, length-take (i.chunk_end - i.offset) (drop i.offset i.key_bytes))

-- The next chunk is ready where the bytes are not at their end.
next_end-IsReady :
    (i : SchedulerInput) (n : ℕ) (t : ℕ)
    → IsReady i
    → i.offset + n ≤ i.chunk_end
    → (i.offset + n == length i.key_bytes) ≡ false
    → IsReady
        (record i { offset = i.offset + n; chunk_end = next_end (i.offset + n) i; next_write = t })
unfolding next_end
next_end-IsReady i n t ready within more = elim (Bool-cases (i.offset + n == i.chunk_end)) [
  | inl ended ↦
      let left = drop (i.offset + n) i.key_bytes in
      let size = length-drop (i.offset + n) i.key_bytes in
      let chunk = chunk_len_progress left i.config.bytes (ground arith) in
      rw ended (ground (arith, chunk.0, chunk.1, size), ground (arith, chunk.0, chunk.1, size))
  | inr inside ↦ rw inside (ground arith, ready.1)
]

module _ (V : Vt100) (B : PtyBackend) (A : Accounts B) where
  abbrev pub sent : Queue.Line V B → List ℕ
  sent l = A.written l.session.backend

  -- What was written and what is still to be written.
  abbrev pub account : Queue.Line V B → List ℕ
  account l = sent l ++ remaining l.input

  -- The texts whose Enter is queued, and those that are still being written.
  unfoldable pub texts : Queue.Line V B → List Text
  texts l = map (λ e. e.text) l.enters ++ map (λ i. without_enter i.text) l.input.scheduler

  touched-accepted :
      (now : ℕ) (s : PtySession V B) (r : Result PtyError ℕ × B.Pty) (n : ℕ)
      → (Session.touched V B now s r).0 ≡ ok n
      → (r.0 ≡ ok n) × ((Session.touched V B now s r).1.backend ≡ r.1)
  touched-accepted now s (err e, backend) n h = absurd (ground arith)
  touched-accepted now s (ok zero, backend) n h = (h, refl)
  touched-accepted now s (ok (suc k), backend) n h = (h, refl)

  touched-refused :
      (now : ℕ) (s : PtySession V B) (r : Result PtyError ℕ × B.Pty) (why : PtyError)
      → (Session.touched V B now s r).0 ≡ err why
      → (r.0 ≡ err why) × ((Session.touched V B now s r).1.backend ≡ r.1)
  touched-refused now s (err e, backend) why h = (h, refl)
  touched-refused now s (ok zero, backend) why h = absurd (ground arith)
  touched-refused now s (ok (suc k), backend) why h = absurd (ground arith)

  pub try_send_raw-accepted :
      (m : Moment) (bytes : List ℕ) (s : PtySession V B) (n : ℕ)
      → (Session.try_send_raw V B m bytes s).0 ≡ ok n
      → (n ≤ length bytes)
        × (A.written (Session.try_send_raw V B m bytes s).1.backend
            ≡ A.written s.backend ++ take n bytes)
  unfolding Session.try_send_raw
  try_send_raw-accepted m bytes s n h = elim (Bool-cases (is_running s.status)) [
    | inr over ↦ absurd (ground arith)
    | inl alive ↦
        let k = touched-accepted m.now s (B.try_write bytes s.backend) n (rw alive at h) in
        let a = A.accepted bytes s.backend n k.0 in rw alive (rw k.1 a)
  ]

  try_send_raw-refused :
      (m : Moment) (bytes : List ℕ) (s : PtySession V B) (why : PtyError)
      → (Session.try_send_raw V B m bytes s).0 ≡ err why
      → A.written (Session.try_send_raw V B m bytes s).1.backend ≡ A.written s.backend
  unfolding Session.try_send_raw
  try_send_raw-refused m bytes s why h = elim (Bool-cases (is_running s.status)) [
    | inr over ↦ rw over refl
    | inl alive ↦
        let k = touched-refused m.now s (B.try_write bytes s.backend) why (rw alive at h) in
        rw alive (rw k.1 (A.refused bytes s.backend why k.0))
  ]

  -- What a drain keeps.
  pub record Keeps (l l' : Queue.Line V B) : Type 0 where
    pub bytes : account l' ≡ account l
    pub messages : texts l' ≡ texts l
    pub ready : All IsReady l'.input.scheduler

  regroup :
      (before : List ℕ) (i : SchedulerInput) (n : ℕ) (later : List ℕ)
      → n ≤ length (next_chunk i)
      → (before ++ take n (next_chunk i)) ++ (drop (i.offset + n) i.key_bytes ++ later)
        ≡ before ++ (drop i.offset i.key_bytes ++ later)
  regroup before i n later h =
      append_assoc before (take n (next_chunk i)) (drop (i.offset + n) i.key_bytes ++ later)
      ∙ ap (λ t. before ++ t)
          (sym (append_assoc (take n (next_chunk i)) (drop (i.offset + n) i.key_bytes) later)
            ∙ ap (λ t. t ++ later) (chunk_split i n h))

  drop_end : (n : ℕ) (xs : List ℕ) → (n == length xs) ≡ true → drop n xs ≡ []
  drop_end zero [] h = refl
  drop_end zero (x ∷ xs) h = absurd (ground arith)
  drop_end (suc n) [] h = refl
  drop_end (suc n) (x ∷ xs) h = drop_end n xs (ground arith)

  abbrev pub line :
      List ℕ → List SchedulerInput → PtySession V B → List PendingEnter → Queue.Line V B
  line user scheduler s enters = record {
    input = record { user = user; scheduler = scheduler };
    session = s;
    enters = enters;
  }

  text-new :
      (s : PtySession V B) (t : Text) (now : ℕ)
      → (InjectedEnter.new V B s t now).text ≡ without_enter t
  unfolding InjectedEnter.new
  text-new s t now = refl

  move_text :
      (es : List PendingEnter) (e : PendingEnter) (t : Text) (ts : List Text)
      → e.text ≡ t
      → map (λ e. e.text) (es ++ e ∷ []) ++ ts ≡ map (λ e. e.text) es ++ t ∷ ts
  move_text [] e t ts h = ap (λ r. r ∷ ts) h
  move_text (d ∷ es) e t ts h = ap (λ r. d.text ∷ r) (move_text es e t ts h)

  wrote-Keeps :
      (now : ℕ) (i : SchedulerInput) (rest : List SchedulerInput) (s : PtySession V B)
      (es : List PendingEnter) (r : Result PtyError ℕ × PtySession V B)
      → IsReady i
      → All IsReady rest
      → ((n : ℕ)
          → r.0 ≡ ok n
          → (n ≤ length (next_chunk i))
            × (A.written r.1.backend ≡ A.written s.backend ++ take n (next_chunk i)))
      → ((why : PtyError) → r.0 ≡ err why → A.written r.1.backend ≡ A.written s.backend)
      → Keeps (line [] (i ∷ rest) s es) (Queue.wrote V B now i rest (line [] (i ∷ rest) s es) r).1
  unfolding remaining rest_of texts
  wrote-Keeps now i rest s es (err why, s') ready later acc refused = record {
    bytes = rw (refused why refl);
    messages = refl;
    ready = (ready, later);
  }
  wrote-Keeps now i rest s es (ok n, s') ready later acc refused =
      let a = acc n refl in
      elim (Bool-cases (i.offset + n == length i.key_bytes)) [
        | inl done ↦ rw done (record {
          bytes = rw a.1 (
              ap (λ t. (A.written s.backend ++ take n (next_chunk i)) ++ (t ++ rest_of rest))
                (sym (drop_end (i.offset + n) i.key_bytes done))
              ∙ regroup (A.written s.backend) i n (rest_of rest) a.0);
          messages =
              move_text es _ (without_enter i.text) _
                (text-new s' i.text (max now s'.last_input_time));
          ready = later;
        })
        | inr more ↦ rw more (record {
          bytes = rw a.1 (regroup (A.written s.backend) i n (rest_of rest) a.0);
          messages = refl;
          ready = (
            next_end-IsReady i n (max now s'.last_input_time + i.config.gap) ready
                (chunk_within i n ready a.0) more,
            later,
          );
        })
      ]

  wrote_user-Keeps :
      (user : List ℕ) (is : List SchedulerInput) (s : PtySession V B) (es : List PendingEnter)
      (r : Result PtyError ℕ × PtySession V B)
      → All IsReady is
      → ((n : ℕ)
          → r.0 ≡ ok n
          → (n ≤ length user) × (A.written r.1.backend ≡ A.written s.backend ++ take n user))
      → ((why : PtyError) → r.0 ≡ err why → A.written r.1.backend ≡ A.written s.backend)
      → Keeps (line user is s es) (Queue.wrote_user V B (line user is s es) r).1
  unfolding remaining texts
  wrote_user-Keeps user is s es (err why, s') ready acc refused = record {
    bytes = rw (refused why refl);
    messages = refl;
    ready = ready;
  }
  wrote_user-Keeps user is s es (ok n, s') ready acc refused =
      let a = acc n refl in
      let whole : min n (length user) ≡ n = omega (arith, a.0) in
      record {
        bytes =
            rw (a.1, whole)
              (append_assoc (A.written s.backend) (take n user) (drop n user ++ rest_of is)
                ∙ ap (λ t. A.written s.backend ++ t)
                    (sym (append_assoc (take n user) (drop n user) (rest_of is))
                      ∙ ap (λ t. t ++ rest_of is) (take-append-drop n user)));
        messages = refl;
        ready = ready;
      }

  drain-Keeps-line :
      (now : ℕ) (m : Moment) (user : List ℕ) (is : List SchedulerInput) (s : PtySession V B)
      (es : List PendingEnter)
      → All IsReady is
      → Keeps (line user is s es) (Queue.drain V B now m (line user is s es)).1
  unfolding Queue.drain Queue.drain_scheduler
  drain-Keeps-line now m [] [] s es h = record { bytes = refl; messages = refl; ready = h }
  drain-Keeps-line now m [] (i ∷ is) s es h = elim (Bool-cases (ltb now i.next_write)) [
    | inl early ↦ rw early (record { bytes = refl; messages = refl; ready = h })
    | inr due ↦ rw due (
        wrote-Keeps now i is s es (Session.try_send_raw V B m (next_chunk i) s) h.0 h.1
          (try_send_raw-accepted m (next_chunk i) s) (try_send_raw-refused m (next_chunk i) s))
  ]
  drain-Keeps-line now m (c ∷ cs) is s es h =
      wrote_user-Keeps (c ∷ cs) is s es (Session.try_send_raw V B m (c ∷ cs) s) h
        (try_send_raw-accepted m (c ∷ cs) s) (try_send_raw-refused m (c ∷ cs) s)

  -- A drain, whether it succeeds or fails: what the terminal was given and what is pending are
  -- together what they were, in order; every message is either still being written or has its
  -- Enter queued, in order; and the next chunk of each lies within its bytes.
  pub drain-Keeps :
      (now : ℕ) (m : Moment) (l : Queue.Line V B)
      → All IsReady l.input.scheduler
      → Keeps l (Queue.drain V B now m l).1
  drain-Keeps now m l h = drain-Keeps-line now m l.input.user l.input.scheduler l.session l.enters h
