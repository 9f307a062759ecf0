-- ===== src/PendingInput/Queue/Progress.antt =====
-- Messages of the scheduler enter the queue, and everything pending is written in the end.
use tttt.Base.{
  ℕ, ◌<◌, ◌≡◌, refl, false, some, List, [], ◌∷◌, ◌++◌, ◌==◌, length, drop, All, arith, ap, sym, ◌∙◌,
  append_assoc, append-nil, All-append,
}
use tttt.Base.Text.{Text, codes, text_eq}
use tttt.Base.Map
use tttt.Pty.Keys.{process_special_keys}
use tttt.Pty.Keys.Sequences.{bracket_sequence}
use tttt.Pty.Keys.Laws.{process-bracket}
use tttt.Pty.Backend.{PtyBackend}
use tttt.Pty.Screen.{Vt100}
use tttt.Pty.Session.{PtySession, Moment}
use tttt.Scheduler.{SchedulerEvent, reminder_fired, cron_fired}
use tttt.InjectedEnter.{PendingEnter}
use tttt.PendingInput.{chunk_len, chunk_len_progress}
use tttt.PendingInput.Queue
use tttt.PendingInput.Queue.{SchedulerInput, SchedulerInputConfig, PendingInput, event_text}
use tttt.PendingInput.Queue.Conserve
use tttt.PendingInput.Queue.Conserve.{Accounts, IsReady, rest_of, remaining, drain-Keeps}

enter_known : bracket_sequence (codes "ENTER") ≡ some (b'\r' ∷ [])
unfolding bracket_sequence text_eq Map.get
enter_known = refl

-- What an event types begins with Enter.
keys_enter :
    (event : SchedulerEvent)
    → (rest : List ℕ) × (process_special_keys (event_text event) ≡ b'\r' ∷ rest)
unfolding event_text
keys_enter (reminder_fired r) = (
  process_special_keys (codes "[REMINDER: " ++ (r.message ++ codes "]")),
  process-bracket (codes "ENTER") _ (refl, (refl, (refl, (refl, (refl, tt))))) enter_known,
)
keys_enter (cron_fired job) =
    (_, process-bracket (codes "ENTER") _ (refl, (refl, (refl, (refl, (refl, tt))))) enter_known)

first_chunk_IsReady :
    (keys : List ℕ) (text : Text) (now : ℕ) (config : SchedulerInputConfig)
    → 0 < length keys
    → IsReady (record {
      text = text;
      key_bytes = keys;
      offset = 0;
      chunk_end = chunk_len keys config.bytes;
      next_write = now;
      config = config;
    })
first_chunk_IsReady keys text now config h =
    let chunk = chunk_len_progress keys config.bytes h in (chunk.0, chunk.1)

rest_of-append : (is js : List SchedulerInput) → rest_of (is ++ js) ≡ rest_of is ++ rest_of js
unfolding rest_of
rest_of-append [] js = refl
rest_of-append (i ∷ is) js =
    ap (λ r. drop i.offset i.key_bytes ++ r) (rest_of-append is js)
    ∙ sym (append_assoc (drop i.offset i.key_bytes) (rest_of is) (rest_of js))

module _ (V : Vt100) (B : PtyBackend) (A : Accounts B) where
  -- The bytes of the queue with a message behind it.
  account-push :
      (is : List SchedulerInput) (s : PtySession V B) (es : List PendingEnter) (i : SchedulerInput)
      → i.offset ≡ 0
      → Conserve.account V B A (Conserve.line V B A [] (is ++ i ∷ []) s es)
        ≡ Conserve.account V B A (Conserve.line V B A [] is s es) ++ i.key_bytes
  unfolding remaining rest_of
  account-push is s es i start =
      ap (λ r. A.written s.backend ++ r)
        (rest_of-append is (i ∷ [])
          ∙ ap (λ r. rest_of is ++ r)
              (append-nil (drop i.offset i.key_bytes) ∙ ap (λ k. drop k i.key_bytes) start))
      ∙ sym (append_assoc (A.written s.backend) (rest_of is) i.key_bytes)

  drain_pushed :
      (is : List SchedulerInput) (s : PtySession V B) (es : List PendingEnter) (i : SchedulerInput)
      (now : ℕ) (m : Moment)
      → i.offset ≡ 0
      → IsReady i
      → All IsReady is
      → let l' = (Queue.drain_scheduler V B now m (Conserve.line V B A [] (is ++ i ∷ []) s es)).1 in
        (Conserve.account V B A l'
          ≡ Conserve.account V B A (Conserve.line V B A [] is s es) ++ i.key_bytes)
        × All IsReady l'.input.scheduler
  unfolding Queue.drain
  drain_pushed is s es i now m start ready h =
      let kept =
        drain-Keeps V B A now m (Conserve.line V B A [] (is ++ i ∷ []) s es)
          (All-append IsReady is (i ∷ []) h (ready, tt)) in
      (kept.bytes ∙ account-push is s es i start, kept.ready)

  -- A message of the scheduler under a positive limit, while the person's input is not waiting,
  -- whether its first write succeeds or fails: the keys of its text come behind all that was
  -- pending, once; and the next chunk of each message lies within its bytes.
  pub send_scheduler_adds :
      (event : SchedulerEvent) (config : SchedulerInputConfig) (now : ℕ) (m : Moment)
      (is : List SchedulerInput) (s : PtySession V B) (es : List PendingEnter)
      → (config.bytes == 0) ≡ false
      → All IsReady is
      → let l = Conserve.line V B A [] is s es in
        let l' = (Queue.send_scheduler V B event config now m l).1 in
        (Conserve.account V B A l'
          ≡ Conserve.account V B A l ++ process_special_keys (event_text event))
        × All IsReady l'.input.scheduler
  unfolding Queue.send_scheduler
  send_scheduler_adds event config now m is s es limited h =
      let some_keys : 0 < length (process_special_keys (event_text event)) =
        rw (keys_enter event).1 (omega arith) in
      rw limited (
        drain_pushed is s es _ now m refl
          (first_chunk_IsReady (process_special_keys (event_text event)) (event_text event) now
            config some_keys)
          h)
