-- ===== src/Scheduler.antt =====
-- crates/tttt-scheduler/src/lib.rs: reminders and cron jobs. An `Instant` is the number of
-- nanoseconds since some origin, a `Duration` its nanoseconds; `duration_since` stops at zero, and
-- so does `-`. The clock can hold the
-- times at which `tick` sets a job again. `BTreeMap` is the list of its entries in the order of their keys.
pub mod Interval
pub mod Order
pub mod Crons
pub mod Counts
pub mod Timing
pub mod Reach
pub mod Formats
mod Samples
use mathlib.Core.List.{flat_map}
use tttt.Base.{
  ℕ, zero, suc, ◌+◌, ◌-◌, ◌*◌, ◌/◌, Bool, true, false, not, ◌&&◌, Option, none, some, List, [], ◌∷◌,
  ◌++◌, map, ltb, leb, ◌==◌, if◌then◌else◌, length, Result, ok, err, ◌>>=◌, min,
}
use tttt.Base.Text.{Text, codes, text_eq}
use tttt.Base.Decimal.{to_decimal}
use tttt.Base.Map
use Interval.{SchedulerError, not_found, parse_interval}

pub data BusyPolicy : Type 0 where
  drop wait : BusyPolicy

unfoldable pub from_str_opt : Option Text → BusyPolicy
from_str_opt none = drop
from_str_opt (some s) = if text_eq s (codes "wait") then wait else drop

pub record Reminder : Type 0 where
  pub id : Text
  pub message : Text
  pub session_id : Option Text
  pub fire_at : Option ℕ

pub record CronJob : Type 0 where
  pub id : Text
  pub expression : Text
  pub command : Text
  pub session_id : Option Text
  pub if_busy : BusyPolicy
  pub interval : Option ℕ
  pub next_fire : Option ℕ

pub data SchedulerEvent : Type 0 where
  reminder_fired : Reminder → SchedulerEvent
  cron_fired : CronJob → SchedulerEvent

abbrev pub Buckets : Type 0
Buckets = List (ℕ × List Reminder)

abbrev pub Jobs : Type 0
Jobs = List (Text × CronJob)

pub record Scheduler : Type 0 where
  pub reminders : Buckets
  pub cron_jobs : Jobs
  pub next_reminder_id : ℕ
  pub next_cron_id : ℕ
  pub epoch : ℕ

-- `Scheduler::new` passes the current time.
unfoldable pub with_epoch : ℕ → Scheduler
with_epoch epoch = record {
  reminders = [];
  cron_jobs = [];
  next_reminder_id = 1;
  next_cron_id = 1;
  epoch = epoch;
}

abbrev pub nanos_per_milli : ℕ
nanos_per_milli = 1_000_000

abbrev pub nanos_per_sec : ℕ
nanos_per_sec = 1_000_000_000

-- `t.duration_since(self.epoch).as_millis()`
unfoldable pub key_at : ℕ → ℕ → ℕ
key_at epoch t = (t - epoch) / nanos_per_milli

-- `entry(key).or_default().push(reminder)`
unfoldable pub push_at : ℕ → Reminder → Buckets → Buckets
push_at key r [] = (key, r ∷ []) ∷ []
push_at key r ((k, rs) ∷ m) =
    let rest = push_at key r m in
    if ltb key k
    then (key, r ∷ []) ∷ (k, rs) ∷ m
    else if key == k
    then (k, rs ++ r ∷ []) ∷ m
    else (k, rs) ∷ rest

unfoldable pub add_reminder : Text → Option Text → ℕ → Scheduler → Scheduler × Text
add_reminder message session_id fire_at s =
    let id = codes "reminder-" ++ to_decimal s.next_reminder_id in
    let r : Reminder = record {
      id = id;
      message = message;
      session_id = session_id;
      fire_at = some fire_at;
    } in
    (
      record s {
        next_reminder_id = s.next_reminder_id + 1;
        reminders = push_at (key_at s.epoch fire_at) r s.reminders;
      },
      id,
    )

-- `none` where `now + interval` panics, since it is later than the clock can hold.
unfoldable pub add_cron :
    ℕ
    → Text
    → Text
    → Option Text
    → BusyPolicy
    → ℕ
    → Scheduler
    → Option (Result SchedulerError (Scheduler × Text))
add_cron max_instant expression command session_id if_busy now s =
    elim (parse_interval expression) [
      | err e ↦ some (err e)
      | ok secs ↦
          let interval = secs * nanos_per_sec in
          let id = codes "cron-" ++ to_decimal s.next_cron_id in
          let job : CronJob = record {
            id = id;
            expression = expression;
            command = command;
            session_id = session_id;
            if_busy = if_busy;
            interval = some interval;
            next_fire = some (now + interval);
          } in
          if leb (now + interval) max_instant
          then some (
              ok (
                record s {
                  next_cron_id = s.next_cron_id + 1;
                  cron_jobs = Map.insert id job s.cron_jobs;
                },
                id,
              ))
          else none
    ]

unfoldable pub remove_cron : Text → Scheduler → Result SchedulerError Scheduler
remove_cron id s =
    if Map.contains_key id s.cron_jobs
    then ok (record s { cron_jobs = Map.remove id s.cron_jobs })
    else err (not_found id)

unfoldable pub list_cron : Scheduler → List CronJob
list_cron s = map (λ e. e.1) s.cron_jobs

-- The pending reminders of a map, in the order of their keys.
unfoldable pub pending : Buckets → List Reminder
pending [] = []
pending ((k, rs) ∷ m) = rs ++ pending m

-- Each reminder with the milliseconds left until it fires.
unfoldable pub list_reminders : ℕ → Scheduler → List (Reminder × ℕ)
list_reminders now s = flat_map (λ b. map (λ r. (r, b.0 - key_at s.epoch now)) b.1) s.reminders

-- `rs.iter().position(…)` and `rs.remove(pos)`
unfoldable pub remove_first : Text → List Reminder → Option (List Reminder)
remove_first id [] = none
remove_first id (r ∷ rs) = elim (text_eq r.id id) [
  | true ↦ some rs
  | false ↦ elim (remove_first id rs) [ none ↦ none | some kept ↦ some (r ∷ kept) ]
]

-- A bucket that the removal emptied is dropped.
unfoldable pub keep_bucket : ℕ → List Reminder → Buckets → Buckets
keep_bucket k [] m = m
keep_bucket k (r ∷ rs) m = (k, r ∷ rs) ∷ m

unfoldable pub remove_from : Text → Buckets → Option Buckets
remove_from id [] = none
remove_from id ((k, rs) ∷ m) = elim (remove_first id rs) [
  | some kept ↦ some (keep_bucket k kept m)
  | none ↦ elim (remove_from id m) [ none ↦ none | some m' ↦ some ((k, rs) ∷ m') ]
]

unfoldable pub remove_reminder : Text → Scheduler → Result SchedulerError Scheduler
remove_reminder id s = elim (remove_from id s.reminders) [
  | some m ↦ ok (record s { reminders = m })
  | none ↦ err (not_found id)
]

-- `self.reminders.range(..=now_key)`, its keys
unfoldable pub due_keys : ℕ → Buckets → List ℕ
due_keys now_key [] = []
due_keys now_key ((k, rs) ∷ m) =
    let rest = due_keys now_key m in if leb k now_key then k ∷ rest else rest

-- `self.reminders.remove(&key)`: the reminders of the key, and the other buckets
unfoldable pub take_bucket : ℕ → Buckets → List Reminder × Buckets
take_bucket key [] = ([], [])
take_bucket key ((k, rs) ∷ m) =
    let (found, rest) = take_bucket key m in if k == key then (rs, m) else (found, (k, rs) ∷ rest)

-- The loop over the due keys: the reminders that fire, and the buckets that stay.
unfoldable pub fire_reminders : List ℕ → Buckets → List Reminder × Buckets
fire_reminders [] m = ([], m)
fire_reminders (key ∷ keys) m =
    let (rs, m') = take_bucket key m in
    let (later, left) = fire_reminders keys m' in (rs ++ later, left)

abbrev pub is_due : ℕ → Option CronJob → Bool
is_due now none = false
is_due now (some job) = elim job.next_fire [ none ↦ false | some t ↦ leb t now ]

-- `if let Some(interval) = job.interval { job.next_fire = Some(now + interval); }`
unfoldable pub reschedule : ℕ → CronJob → CronJob
reschedule now job = elim job.interval [
  | none ↦ job
  | some interval ↦ record job { next_fire = some (now + interval) }
]

-- The body of the loop over the cron jobs' keys.
unfoldable pub fire_cron : ℕ → Text → Jobs → List SchedulerEvent × Jobs
fire_cron now id jobs = elim (Map.get id jobs) [
  | none ↦ ([], jobs)
  | some job ↦
      if is_due now (some job)
      then (cron_fired job ∷ [], Map.insert id (reschedule now job) jobs)
      else ([], jobs)
]

unfoldable pub fire_crons : ℕ → List Text → Jobs → List SchedulerEvent × Jobs
fire_crons now [] jobs = ([], jobs)
fire_crons now (id ∷ ids) jobs =
    let (events, jobs') = fire_cron now id jobs in
    let (later, jobs'') = fire_crons now ids jobs' in (events ++ later, jobs'')

unfoldable pub tick : ℕ → Scheduler → Scheduler × List SchedulerEvent
tick now s =
    let now_key = key_at s.epoch now in
    let (reminders, left) = fire_reminders (due_keys now_key s.reminders) s.reminders in
    let (crons, jobs) = fire_crons now (map (λ e. e.0) s.cron_jobs) s.cron_jobs in
    (record s { reminders = left; cron_jobs = jobs }, map reminder_fired reminders ++ crons)

abbrev earlier : Option ℕ → Option ℕ → Option ℕ
earlier none o = o
earlier (some a) none = some a
earlier (some a) (some b) = some (min a b)

-- `filter_map(|j| j.next_fire).min()`
unfoldable pub next_cron : Jobs → Option ℕ
next_cron [] = none
next_cron ((id, job) ∷ jobs) = earlier job.next_fire (next_cron jobs)

unfoldable pub next_reminder : ℕ → Buckets → Option ℕ
next_reminder epoch [] = none
next_reminder epoch ((k, rs) ∷ m) = some (epoch + k * nanos_per_milli)

unfoldable pub next_wake : Scheduler → Option ℕ
next_wake s = earlier (next_reminder s.epoch s.reminders) (next_cron s.cron_jobs)

unfoldable pub count_reminders : Buckets → ℕ
count_reminders [] = 0
count_reminders ((k, rs) ∷ m) = length rs + count_reminders m

unfoldable pub reminder_count : Scheduler → ℕ
reminder_count s = count_reminders s.reminders

unfoldable pub cron_count : Scheduler → ℕ
cron_count s = length s.cron_jobs
