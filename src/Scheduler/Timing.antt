-- ===== src/Scheduler/Timing.antt =====
-- `tick` and `next_wake`: what fires, what stays, and how long it is safe to sleep.
use tttt.Base.{
  ℕ, suc, ◌+◌, ◌≤◌, ◌<◌, ◌≡◌, refl, Bool, true, false, not, ◌&&◌, ◌||◌, Option, none, some, List,
  [], ◌∷◌, ◌++◌, map, ltb, leb, All, retain, is_empty, Bool-cases, inl, inr, arith,
}
use tttt.Base.Text.{Text}
use tttt.Base.Map
use tttt.Scheduler.{
  Reminder, CronJob, Buckets, Jobs, Scheduler, SchedulerEvent, reminder_fired, earlier, key_at,
  pending, tick, next_cron, next_reminder, next_wake, nanos_per_milli, reschedule,
}
use tttt.Scheduler.Order.{
  IsFiled, InOrder, above, fire_reminders-due_keys, pending-retain, pending-All_of_keys,
  retain-InOrder,
}
use tttt.Scheduler.Crons.{due_events, after_tick, fire_crons-ids, after_tick-Distinct}

pub record IsWell (s : Scheduler) : Type 0 where
  pub in_order : InOrder s.epoch 0 s.reminders
  pub distinct : Map.Distinct s.cron_jobs

-- The reminders that a tick takes out, and the buckets that it leaves.
abbrev pub due_reminders : ℕ → Scheduler → List Reminder
due_reminders now s = pending (retain (λ b. leb b.0 (key_at s.epoch now)) s.reminders)

abbrev pub later_buckets : ℕ → Scheduler → Buckets
later_buckets now s = retain (λ b. ltb (key_at s.epoch now) b.0) s.reminders

pub tick_lem :
    (now : ℕ) (s : Scheduler)
    → IsWell s
    → tick now s ≡ (
      record s { reminders = later_buckets now s; cron_jobs = after_tick now s.cron_jobs },
      map reminder_fired (due_reminders now s) ++ due_events now s.cron_jobs,
    )
unfolding tick
tick_lem now s w =
    rw (fire_reminders-due_keys s.epoch (key_at s.epoch now) 0 s.reminders w.in_order)
      (rw (fire_crons-ids now s.cron_jobs w.distinct) refl)

-- Fires at `now`, at most a millisecond early.
abbrev pub FiresBy : ℕ → Reminder → Type 0
FiresBy now r = (t : ℕ) × (r.fire_at ≡ some t) × (t < now + nanos_per_milli)

abbrev pub FiresAfter : ℕ → Reminder → Type 0
FiresAfter now r = (t : ℕ) × (r.fire_at ≡ some t) × (now < t)

abbrev pub woken : ℕ → Option ℕ → Bool
woken now none = false
woken now (some t) = leb t now

woken-earlier : (now : ℕ) (a b : Option ℕ) → woken now (earlier a b) ≡ (woken now a || woken now b)
woken-earlier now none b = refl
woken-earlier now (some a) none = ground arith
woken-earlier now (some a) (some b) = ground arith

woken-next_cron :
    (now : ℕ) (jobs : Jobs) → is_empty (due_events now jobs) ≡ not (woken now (next_cron jobs))
unfolding next_cron
woken-next_cron now [] = refl
woken-next_cron now ((id, job) ∷ jobs) =
    ground (arith, woken-earlier now job.next_fire (next_cron jobs), woken-next_cron now jobs)

woken-next_reminder :
    (epoch now lo : ℕ) (m : Buckets)
    → epoch ≤ now
    → InOrder epoch lo m
    → is_empty (pending (retain (λ b. leb b.0 (key_at epoch now)) m))
      ≡ not (woken now (next_reminder epoch m))
unfolding next_reminder
woken-next_reminder epoch now lo [] le h = unfold pending in refl
woken-next_reminder epoch now lo ((k, []) ∷ m) le h = absurd (h.1 refl)
woken-next_reminder epoch now lo ((k, r ∷ rs) ∷ m) le h =
    elim (Bool-cases (leb k (key_at epoch now))) [
      | inl due ↦ rw due (unfold pending key_at in ground arith)
      | inr later ↦
          rw (later, (above epoch (key_at epoch now) (suc k) m (ground arith) h.3).1)
            (unfold pending key_at in ground arith)
    ]

FiresBy-of_key :
    (epoch now k : ℕ) (r : Reminder)
    → epoch ≤ now
    → leb k (key_at epoch now) ≡ true
    → IsFiled epoch k r
    → FiresBy now r
unfolding key_at
FiresBy-of_key epoch now k r le due (t, at_t, filed) = (t, at_t, ground arith)

FiresAfter-of_key :
    (epoch now k : ℕ) (r : Reminder)
    → epoch ≤ now
    → ltb (key_at epoch now) k ≡ true
    → IsFiled epoch k r
    → FiresAfter now r
unfolding key_at
FiresAfter-of_key epoch now k r le later (t, at_t, filed) = (t, at_t, ground arith)

-- For a well-formed state and a time not before its epoch: a tick at `now` fires reminders first
-- and then the cron jobs that are due, in the order of the map. The reminders that fire and those
-- that stay are together all that were pending, in order; each that fires was set for less than a
-- millisecond after `now` or earlier, and each that stays is set for later than `now`.
pub tick_partition :
    (now : ℕ) (s : Scheduler)
    → IsWell s
    → s.epoch ≤ now
    → (fired : List Reminder) × ((tick now s).1
        ≡ map reminder_fired fired ++ due_events now s.cron_jobs)
      × (fired ++ pending (tick now s).0.reminders ≡ pending s.reminders)
      × All (FiresBy now) fired
      × All (FiresAfter now) (pending (tick now s).0.reminders)
tick_partition now s w le = rw (tick_lem now s w) (
  due_reminders now s,
  refl,
  pending-retain s.epoch key 0 s.reminders w.in_order,
  pending-All_of_keys s.epoch (FiresBy now) (λ k. leb k key) s.reminders 0 w.in_order
      (λ k r p f. FiresBy-of_key s.epoch now k r le p f),
  pending-All_of_keys s.epoch (FiresAfter now) (λ k. ltb key k) s.reminders 0 w.in_order
      (λ k r p f. FiresAfter-of_key s.epoch now k r le p f),
)
  where
    key : ℕ
    key = key_at s.epoch now

-- For a well-formed state and a time not before its epoch: a tick fires nothing exactly while
-- `next_wake` is later than `now` or there is none.
pub tick-next_wake :
    (now : ℕ) (s : Scheduler)
    → IsWell s
    → s.epoch ≤ now
    → is_empty (tick now s).1 ≡ not (woken now (next_wake s))
unfolding next_wake
tick-next_wake now s w le = rw (tick_lem now s w) (
    ground (
      arith,
      is_empty-append (due_reminders now s) (due_events now s.cron_jobs),
      woken-next_reminder s.epoch now 0 s.reminders le w.in_order,
      woken-next_cron now s.cron_jobs,
      woken-earlier now (next_reminder s.epoch s.reminders) (next_cron s.cron_jobs),
    ))
  where
    is_empty-append :
        (rs : List Reminder) (es : List SchedulerEvent)
        → is_empty (map reminder_fired rs ++ es) ≡ (is_empty rs && is_empty es)
    is_empty-append [] es = refl
    is_empty-append (r ∷ rs) es = refl

-- In a well-formed state: the jobs that were due at `now` get the time `now + interval`; the
-- others keep theirs.
pub tick-cron_jobs :
    (now : ℕ) (s : Scheduler) → IsWell s → (tick now s).0.cron_jobs ≡ after_tick now s.cron_jobs
tick-cron_jobs now s w = rw (tick_lem now s w)

pub tick-IsWell : (now : ℕ) (s : Scheduler) → IsWell s → IsWell (tick now s).0
tick-IsWell now s w = rw (tick_lem now s w) (record {
  in_order = retain-InOrder s.epoch (λ k. ltb (key_at s.epoch now) k) 0 s.reminders w.in_order;
  distinct = after_tick-Distinct now s.cron_jobs w.distinct;
})

abbrev pub HasInterval : Text × CronJob → Type 0
HasInterval e = (i : ℕ) × (e.1.interval ≡ some i) × (0 < i)

due_events-after_tick :
    (now : ℕ) (jobs : Jobs) → All HasInterval jobs → due_events now (after_tick now jobs) ≡ []
unfolding reschedule
due_events-after_tick now [] h = refl
due_events-after_tick now ((id, job) ∷ jobs) ((i, has, pos), h) =
    ground (arith, due_events-after_tick now jobs h)

due-later_nil : (n : ℕ) (m : Buckets) → retain (λ b. leb b.0 n) (retain (λ b. ltb n b.0) m) ≡ []
due-later_nil n [] = refl
due-later_nil n ((k, rs) ∷ m) = ground (arith, due-later_nil n m)

-- In a well-formed state where every job has a positive interval, a second tick at the same time
-- fires nothing.
pub tick_twice :
    (now : ℕ) (s : Scheduler)
    → IsWell s
    → All HasInterval s.cron_jobs
    → (tick now (tick now s).0).1 ≡ []
tick_twice now s w h = rw (tick_lem now (tick now s).0 (tick-IsWell now s w)) (
    rw (tick_lem now s w) (
      rw (due_events-after_tick now s.cron_jobs h)
        (rw (due-later_nil (key_at s.epoch now) s.reminders) (unfold pending in refl))))
