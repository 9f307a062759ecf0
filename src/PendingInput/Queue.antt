-- ===== src/PendingInput/Queue.antt =====
-- `PendingInput` of src/pending_input.rs: what the person and the scheduler want to write to a
-- session, drained one write at a time. Times are nanoseconds; `now` is the event loop's time and
-- the moment of a write the session's own reading of the clock.

pub mod Conserve
pub mod Progress
pub mod Complete
mod Samples
use tttt.Base.{
  ℕ, zero, suc, ◌+◌, ◌-◌, ◌*◌, ◌/◌, ◌%◌, Bool, true, false, not, ◌&&◌, ◌||◌, Option, none, some,
  List, [], ◌∷◌, ◌++◌, ltb, leb, ◌==◌, if◌then◌else◌, length, take, drop, is_empty, Result, ok, err,
  min, max,
}
use tttt.Base.Text.{Text, codes}
use tttt.Base.Space.{trim_end_matches}
use tttt.Base.Decimal.{parse_u64}
use tttt.Pty.Keys.{process_special_keys}
use tttt.Pty.Backend.{PtyBackend, PtyError}
use tttt.Pty.Screen.{Vt100}
use tttt.Pty.Session
use tttt.Pty.Session.{PtySession, Moment}
use tttt.Scheduler.{SchedulerEvent, reminder_fired, cron_fired}
use tttt.InjectedEnter
use tttt.InjectedEnter.{PendingEnter, nanos_per_milli}
use tttt.PendingInput.{chunk_len}

pub record SchedulerInputConfig : Type 0 where
  pub bytes : ℕ
  pub gap : ℕ

abbrev or_default : ℕ → Option ℕ → ℕ
or_default d none = d
or_default d (some n) = n

abbrev parsed : Option Text → Option ℕ
parsed none = none
parsed (some s) = parse_u64 s

-- The two environment variables; a `usize` has 64 bits.
unfoldable pub parse_config : Option Text → Option Text → SchedulerInputConfig
parse_config bytes gap = record {
  bytes = or_default 48 (parsed bytes);
  gap = or_default 8 (parsed gap) * nanos_per_milli;
}

pub record SchedulerInput : Type 0 where
  pub text : Text
  pub key_bytes : List ℕ
  pub offset : ℕ
  pub chunk_end : ℕ
  pub next_write : ℕ
  pub config : SchedulerInputConfig

pub record PendingInput : Type 0 where
  pub user : List ℕ
  pub scheduler : List SchedulerInput

unfoldable pub is_empty_input : PendingInput → Bool
is_empty_input p = is_empty p.user && is_empty p.scheduler

-- The text that an event types.
unfoldable pub event_text : SchedulerEvent → Text
event_text (reminder_fired r) = codes "[ENTER][REMINDER: " ++ (r.message ++ codes "]")
event_text (cron_fired job) =
    codes "[ENTER][CRON "
    ++ (job.id ++ (codes "]: " ++ trim_end_matches (λ c. c == b'\r' || c == b'\n') job.command))

-- `&data[offset..chunk_end]`
unfoldable pub next_chunk : SchedulerInput → List ℕ
next_chunk i = take (i.chunk_end - i.offset) (drop i.offset i.key_bytes)

-- The end of the chunk behind `offset`; it moves when the chunk before it is written.
unfoldable pub next_end : ℕ → SchedulerInput → ℕ
next_end offset i =
    if offset == i.chunk_end
    then i.chunk_end + chunk_len (drop offset i.key_bytes) i.config.bytes
    else i.chunk_end

module _ (V : Vt100) (B : PtyBackend) where
  -- The input, the session and the queue of Enters, which a drain changes together.
  pub record Line : Type 0 where
    pub input : PendingInput
    pub session : PtySession V B
    pub enters : List PendingEnter

  abbrev pub Drained : Type 0
  Drained = Result PtyError (Unit {0}) × Line

  -- Behind a write of `n` bytes of the first scheduler input.
  abbrev advanced : ℕ → ℕ → SchedulerInput → List SchedulerInput → Line → Line
  advanced now n i rest l =
      let offset = i.offset + n in
      let written_at = max now l.session.last_input_time in
      if offset == length i.key_bytes
      then record l {
        input = record (l.input) { scheduler = rest };
        enters = l.enters ++ InjectedEnter.new V B l.session i.text written_at ∷ [];
      }
      else record l {
        input = record (l.input) {
          scheduler =
              record i {
                offset = offset;
                chunk_end = next_end offset i;
                next_write = written_at + i.config.gap;
              }
              ∷ rest;
        };
      }

  abbrev wrote :
      ℕ → SchedulerInput → List SchedulerInput → Line → Result PtyError ℕ × PtySession V B → Drained
  wrote now i rest l (err e, s) = (err e, record l { session = s })
  wrote now i rest l (ok n, s) = (ok tt, advanced now n i rest (record l { session = s }))

  abbrev write_first : ℕ → Moment → Line → List SchedulerInput → Drained
  write_first now m l [] = (ok tt, l)
  write_first now m l (i ∷ rest) =
      if ltb now i.next_write
      then (ok tt, l)
      else wrote now i rest l (Session.try_send_raw V B m (next_chunk i) l.session)

  unfoldable pub drain_scheduler : ℕ → Moment → Line → Drained
  drain_scheduler now m l = write_first now m l l.input.scheduler

  -- `self.user.drain(..n.min(self.user.len()))`
  abbrev wrote_user : Line → Result PtyError ℕ × PtySession V B → Drained
  wrote_user l (err e, s) = (err e, record l { session = s })
  wrote_user l (ok n, s) = (
    ok tt,
    record l {
      session = s;
      input = record (l.input) { user = drop (min n (length l.input.user)) l.input.user };
    },
  )

  unfoldable pub drain : ℕ → Moment → Line → Drained
  drain now m l =
      if is_empty l.input.user
      then drain_scheduler now m l
      else wrote_user l (Session.try_send_raw V B m l.input.user l.session)

  abbrev sent_whole : ℕ → Text → Line → Result PtyError (Unit {0}) × PtySession V B → Drained
  sent_whole written_at text l (err e, s) = (err e, record l { session = s })
  sent_whole written_at text l (ok _, s) = (
    ok tt,
    record l { session = s; enters = l.enters ++ InjectedEnter.new V B s text written_at ∷ [] },
  )

  -- A limit of zero bytes writes at once. The time of a write is then that of `m`.
  unfoldable pub send_scheduler :
      SchedulerEvent → SchedulerInputConfig → ℕ → Moment → Line → Drained
  send_scheduler event config now m l =
      let text = event_text event in
      if config.bytes == 0
      then sent_whole (max now m.now) text l (Session.send_keys V B m text l.session)
      else (let keys = process_special_keys text in
          let i : SchedulerInput = record {
            text = text;
            key_bytes = keys;
            offset = 0;
            chunk_end = chunk_len keys config.bytes;
            next_write = now;
            config = config;
          } in
          drain_scheduler now m
            (record l { input = record (l.input) { scheduler = l.input.scheduler ++ i ∷ [] } }))

-- The milliseconds until the next write, rounded up, and at most `normal`.
unfoldable pub poll_timeout_ms : ℕ → ℕ → PendingInput → ℕ
poll_timeout_ms now normal p =
    if is_empty p.user
    then elim p.scheduler [
      | [] ↦ normal
      | i ∷ rest ↦
          let wait = i.next_write - now in
          let ms = wait / nanos_per_milli + (if wait % nanos_per_milli == 0 then 0 else 1) in
          min normal (min ms 65535)
    ]
    else normal
