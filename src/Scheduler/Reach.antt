-- ===== src/Scheduler/Reach.antt =====
-- The scheduler under any sequence of its operations.
use tttt.Base.{
  leb, ℕ, ◌+◌, ◌*◌, ◌≤◌, ◌<◌, ◌≡◌, refl, false, Option, none, some, ◌++◌, if◌then◌else◌, Bool-cases,
  Option-cases, Result-cases, ◌⊎◌, inl, inr, arith, ap, ok, err,
}
use tttt.Base.Text.{Text, codes, text_eq, text_eq_iff, append_left_cancel}
use tttt.Base.Decimal.{to_decimal, to_decimal-injective}
use tttt.Base.Map
use tttt.Scheduler.{
  Reminder, CronJob, nanos_per_sec, BusyPolicy, Scheduler, with_epoch, add_reminder, add_cron,
  remove_cron, remove_reminder, key_at, pending, push_at, remove_from, tick,
}
use tttt.Scheduler.Interval.{not_found, parse_interval}
use tttt.Scheduler.Order.{pending-retain, push_at-InOrder, remove_from-InOrder}
use tttt.Scheduler.Crons.{get-after_tick-none}
use tttt.Scheduler.Counts.{count, count-append, count-push_at, count-remove_from, remove_from-none}
use tttt.Scheduler.Timing.{IsWell, tick-IsWell, tick_lem, due_reminders, later_buckets}
use mathlib.Core.Path.{subst}

pub data Step : Scheduler → Scheduler → Type 0 where
  reminder_added :
      (message : Text) (session_id : Option Text) (fire_at : ℕ) (s : Scheduler)
      → Step s (add_reminder message session_id fire_at s).0
  reminder_removed : (id : Text) (s t : Scheduler) → remove_reminder id s ≡ ok t → Step s t
  cron_added :
      (max_instant : ℕ) (expression command : Text) (session_id : Option Text)
      (if_busy : BusyPolicy) (now : ℕ) (s t : Scheduler) (id : Text)
      → add_cron max_instant expression command session_id if_busy now s ≡ some (ok (t, id))
      → Step s t
  cron_removed : (id : Text) (s t : Scheduler) → remove_cron id s ≡ ok t → Step s t
  ticked : (now : ℕ) (s : Scheduler) → Step s (tick now s).0

pub data Reach (s : Scheduler) : Scheduler → Type 0 where
  start : Reach s s
  next : {t u : Scheduler} → Reach s t → Step t u → Reach s u

abbrev pub reminder_name : ℕ → Text
reminder_name n = codes "reminder-" ++ to_decimal n

abbrev pub cron_name : ℕ → Text
cron_name n = codes "cron-" ++ to_decimal n

pub record IsSound (s : Scheduler) : Type 0 where
  pub well : IsWell s
  pub unique : (id : Text) → count id (pending s.reminders) ≤ 1
  pub unused_reminder :
      (n : ℕ) → s.next_reminder_id ≤ n → count (reminder_name n) (pending s.reminders) ≡ 0
  pub unused_cron : (n : ℕ) → s.next_cron_id ≤ n → Map.get (cron_name n) s.cron_jobs ≡ none

names_differ :
    (p : Text) (m n : ℕ) → m < n → text_eq (p ++ to_decimal m) (p ++ to_decimal n) ≡ false
names_differ p m n lt = elim (Bool-cases (text_eq (p ++ to_decimal m) (p ++ to_decimal n))) [
  | inl same ↦ absurd (
      omega (arith, to_decimal-injective m n (append_left_cancel p _ _ ((text_eq_iff _ _).0 same))))
  | inr other ↦ other
]

with_epoch-IsSound : (epoch : ℕ) → IsSound (with_epoch epoch)
unfolding with_epoch
with_epoch-IsSound epoch = record {
  well = record { in_order = tt; distinct = tt };
  unique = λ id. unfold pending count in omega arith;
  unused_reminder = λ n le. unfold pending count in refl;
  unused_cron = λ n le. Map.get-nil (cron_name n);
}

add_reminder-IsSound :
    (message : Text) (session_id : Option Text) (fire_at : ℕ) (s : Scheduler)
    → IsSound s
    → IsSound (add_reminder message session_id fire_at s).0
unfolding add_reminder
add_reminder-IsSound message session_id fire_at s h = record {
  well = record {
    in_order =
        push_at-InOrder s.epoch 0 (key_at s.epoch fire_at) new s.reminders (omega arith)
          (fire_at, refl, refl) h.well.in_order;
    distinct = h.well.distinct;
  };
  unique = λ id. ground (
    arith,
    counted id,
    text_eq_iff (reminder_name s.next_reminder_id) id,
    h.unique id,
    fresh,
    ap (λ j. count j (pending s.reminders)),
  );
  unused_reminder = λ n le. ground (
    arith,
    counted (reminder_name n),
    names_differ (codes "reminder-") s.next_reminder_id n,
    h.unused_reminder n,
  );
  unused_cron = h.unused_cron;
}
  where
    new : Reminder
    new = record {
      id = reminder_name s.next_reminder_id;
      message = message;
      session_id = session_id;
      fire_at = some fire_at;
    }

    counted :
        (id : Text)
        → count id (pending (push_at (key_at s.epoch fire_at) new s.reminders))
          ≡ (if text_eq (reminder_name s.next_reminder_id) id then 1 else 0)
            + count id (pending s.reminders)
    counted id = count-push_at id (key_at s.epoch fire_at) new s.reminders

    fresh : count (reminder_name s.next_reminder_id) (pending s.reminders) ≡ 0
    fresh = h.unused_reminder s.next_reminder_id (omega arith)

remove_reminder-IsSound :
    (id : Text) (s t : Scheduler) → remove_reminder id s ≡ ok t → IsSound s → IsSound t
unfolding remove_reminder
remove_reminder-IsSound id s t e h = elim (Option-cases (remove_from id s.reminders)) [
  | inl gone ↦ absurd (ground arith)
  | inr (m, found) ↦
      let same : record s { reminders = m } ≡ t = ground arith in
      subst IsSound same (record {
        well = record {
          in_order = remove_from-InOrder s.epoch 0 id s.reminders m h.well.in_order found;
          distinct = h.well.distinct;
        };
        unique = λ j. ground (arith, count-remove_from id j s.reminders m found, h.unique j);
        unused_reminder = λ n le. omega (
          arith,
          count-remove_from id (reminder_name n) s.reminders m found,
          h.unused_reminder n le,
        );
        unused_cron = h.unused_cron;
      })
]

add_cron-IsSound :
    (max_instant : ℕ) (expression command : Text) (session_id : Option Text) (if_busy : BusyPolicy)
    (now : ℕ) (s t : Scheduler) (id : Text)
    → add_cron max_instant expression command session_id if_busy now s ≡ some (ok (t, id))
    → IsSound s
    → IsSound t
unfolding add_cron
add_cron-IsSound max_instant expression command session_id if_busy now s t id e h =
    elim (Result-cases (parse_interval expression)) [
      | inr (why, failed) ↦ absurd (ground arith)
      | inl (secs, parsed) ↦ elim (Bool-cases (leb (now + secs * nanos_per_sec) max_instant)) [
        | inr late ↦ absurd (ground arith)
        | inl held ↦
            let job : CronJob = record {
              id = cron_name s.next_cron_id;
              expression = expression;
              command = command;
              session_id = session_id;
              if_busy = if_busy;
              interval = some (secs * nanos_per_sec);
              next_fire = some (now + secs * nanos_per_sec);
            } in
            let same : record s {
              next_cron_id = s.next_cron_id + 1;
              cron_jobs = Map.insert (cron_name s.next_cron_id) job s.cron_jobs;
            }
                ≡ t =
              ground arith in
            subst IsSound same (record {
              well = record {
                in_order = h.well.in_order;
                distinct =
                    Map.insert-Distinct (cron_name s.next_cron_id) job s.cron_jobs h.well.distinct;
              };
              unique = h.unique;
              unused_reminder = h.unused_reminder;
              unused_cron = λ n le. ground (
                arith,
                Map.get-insert (cron_name s.next_cron_id) (cron_name n) job s.cron_jobs,
                names_differ (codes "cron-") s.next_cron_id n,
                h.unused_cron n,
              );
            })
      ]
    ]

remove_cron-IsSound :
    (id : Text) (s t : Scheduler) → remove_cron id s ≡ ok t → IsSound s → IsSound t
unfolding remove_cron
remove_cron-IsSound id s t e h = elim (Bool-cases (Map.contains_key id s.cron_jobs)) [
  | inr gone ↦ absurd (ground arith)
  | inl there ↦
      let same : record s { cron_jobs = Map.remove id s.cron_jobs } ≡ t = ground arith in
      subst IsSound same (record {
        well = record {
          in_order = h.well.in_order;
          distinct = Map.remove-Distinct id s.cron_jobs h.well.distinct;
        };
        unique = h.unique;
        unused_reminder = h.unused_reminder;
        unused_cron =
            λ n le. ground (arith, Map.get-remove id (cron_name n) s.cron_jobs, h.unused_cron n);
      })
]

tick-IsSound : (now : ℕ) (s : Scheduler) → IsSound s → IsSound (tick now s).0
tick-IsSound now s h = rw (tick_lem now s h.well) (record {
  well = rw (tick_lem now s h.well) at (tick-IsWell now s h.well);
  unique = λ id. omega (arith, fewer id, h.unique id);
  unused_reminder = λ n le. omega (arith, fewer (reminder_name n), h.unused_reminder n le);
  unused_cron = λ n le. get-after_tick-none now (cron_name n) s.cron_jobs (h.unused_cron n le);
})
  where
    fewer : (id : Text) → count id (pending (later_buckets now s)) ≤ count id (pending s.reminders)
    fewer id = omega (
      arith,
      ap (count id) (pending-retain s.epoch (key_at s.epoch now) 0 s.reminders h.well.in_order),
      count-append id (due_reminders now s) (pending (later_buckets now s)),
    )

Step-IsSound : {s t : Scheduler} → Step s t → IsSound s → IsSound t
Step-IsSound (reminder_added message session_id fire_at s) h =
    add_reminder-IsSound message session_id fire_at s h
Step-IsSound (reminder_removed id s t e) h = remove_reminder-IsSound id s t e h
Step-IsSound (cron_added max_instant expression command session_id if_busy now s t id e) h =
    add_cron-IsSound max_instant expression command session_id if_busy now s t id e h
Step-IsSound (cron_removed id s t e) h = remove_cron-IsSound id s t e h
Step-IsSound (ticked now s) h = tick-IsSound now s h

Reach-keeps : {s t : Scheduler} → Reach s t → IsSound s → IsSound t
Reach-keeps start h = h
Reach-keeps (next r st) h = Step-IsSound st (Reach-keeps r h)

-- From a new scheduler, after any operations: the reminders' map is in order with no empty
-- bucket and each reminder under the key of its time, no key of a cron job stands twice, no
-- reminder's identifier is pending twice, and the next identifiers to be given are unused.
pub Reach-IsSound : (epoch : ℕ) {t : Scheduler} → Reach (with_epoch epoch) t → IsSound t
Reach-IsSound epoch r = Reach-keeps r (with_epoch-IsSound epoch)

-- A removal fails exactly if the identifier is not pending; else it takes out one reminder of
-- that identifier and none of another.
pub remove_reminder_outcome :
    (id : Text) (s : Scheduler)
    → ((remove_reminder id s ≡ err (not_found id)) × (count id (pending s.reminders) ≡ 0))
      ⊎ ((t : Scheduler) × (remove_reminder id s ≡ ok t)
          × ((j : Text)
              → count j (pending s.reminders)
                ≡ (if text_eq id j then 1 else 0) + count j (pending t.reminders)))
unfolding remove_reminder
remove_reminder_outcome id s = elim (Option-cases (remove_from id s.reminders)) [
  | inl gone ↦ inl (rw (gone, remove_reminder), (remove_from-none id s.reminders).0 gone)
  | inr (m, found) ↦ inr (
    record s { reminders = m },
    rw (found, remove_reminder),
    λ j. count-remove_from id j s.reminders m found,
  )
]
