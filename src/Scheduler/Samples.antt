-- ===== src/Scheduler/Samples.antt =====
-- The scheduler's operations on small inputs.
use tttt.Base.{
  ◌+◌, ◌≡◌, refl, false, not, ◌⊎◌, none, some, [], ◌++◌, map, ok, err, All, is_empty, if◌then◌else◌,
  ◌≤◌, List, arith,
}
use tttt.Base.Text.{Text, codes, text_eq, strip_prefix}
use tttt.Base.Decimal.{to_decimal, parse_unsigned, parse_digits, push_digit}
use tttt.Base.Space.{
  is_whitespace, trim, trim_start_matches, trim_end_matches, strip_suffix, split_whitespace,
  fields_from, split_once,
}
use tttt.Base.Map
use tttt.Scheduler.{
  Scheduler, Reminder, drop, with_epoch, add_reminder, add_cron, remove_reminder, tick, key_at,
  due_keys, take_bucket, fire_reminders, fire_crons, push_at, next_wake, pending, reminder_fired,
}
use tttt.Scheduler.Interval.{
  invalid_expression, not_found, parse_interval, formats, compact, five_fields, shorthand, human,
  unit_seconds,
}
use tttt.Scheduler.Counts.{count}
use tttt.Scheduler.Crons.{due_events}
use tttt.Scheduler.Timing.{
  IsWell, HasInterval, FiresBy, FiresAfter, woken, tick_partition, tick-next_wake, tick_twice,
}
use tttt.Scheduler.Reach.{
  Reach, start, next, reminder_added, cron_added, Reach-IsSound, IsSound, remove_reminder_outcome,
}

formats_accepted :
    (parse_interval (codes " 10s ") ≡ ok 10)
    × (parse_interval (codes "5m") ≡ ok 300)
    × (parse_interval (codes "*/5 * * * *") ≡ ok 300)
    × (parse_interval (codes "*/2") ≡ ok 120)
    × (parse_interval (codes "every 2 Hours") ≡ ok 7200)
    × (parse_interval (codes "0s") ≡ ok 0)
    × (parse_interval (codes "*/0") ≡ err (invalid_expression (codes "*/0")))
unfolding parse_interval formats compact five_fields shorthand human unit_seconds trim
    trim_start_matches trim_end_matches strip_suffix parse_unsigned parse_digits push_digit
    split_whitespace fields_from strip_prefix text_eq split_once is_whitespace
formats_accepted = (refl, refl, refl, refl, refl, refl, refl)

-- A reminder half a millisecond behind the third millisecond.
abbrev reminded : Scheduler
reminded = (add_reminder (codes "tea") none 3_500_005 (with_epoch 5)).0

abbrev scheduled : Scheduler
scheduled = elim (add_cron 1_000_000_000_000_000 (codes "10s") (codes "ls") none drop 5 reminded) [
  | some (ok (t, id)) ↦ t
  | some (err e) ↦ reminded
  | none ↦ reminded
]

scheduled-Reach : Reach (with_epoch 5) scheduled
unfolding add_cron parse_interval formats compact trim trim_start_matches trim_end_matches
    strip_suffix parse_unsigned parse_digits push_digit is_whitespace to_decimal add_reminder
    with_epoch
scheduled-Reach = next (next start (reminder_added (codes "tea") none 3_500_005 (with_epoch 5))) (
    cron_added 1_000_000_000_000_000 (codes "10s") (codes "ls") none drop 5 reminded scheduled
      (codes "cron-1") refl)

scheduled-IsWell : IsWell scheduled
scheduled-IsWell = (Reach-IsSound 5 scheduled-Reach).well

scheduled_after_epoch : scheduled.epoch ≤ 4_000_005
unfolding add_cron parse_interval formats compact trim trim_start_matches trim_end_matches
    strip_suffix parse_unsigned parse_digits push_digit is_whitespace to_decimal add_reminder
    with_epoch
scheduled_after_epoch = omega arith

scheduled_intervals : All HasInterval scheduled.cron_jobs
unfolding add_cron parse_interval formats compact trim trim_start_matches trim_end_matches
    strip_suffix parse_unsigned parse_digits push_digit is_whitespace to_decimal add_reminder
    with_epoch Map.insert
scheduled_intervals = ((10_000_000_000, refl, omega arith), tt)

-- A reminder for half a millisecond later fires.
fires_early : is_empty (tick 3_000_005 reminded).1 ≡ false
unfolding tick key_at due_keys take_bucket fire_reminders fire_crons push_at add_reminder with_epoch
fires_early = refl

Reach-IsSound_example : IsSound scheduled
Reach-IsSound_example = Reach-IsSound 5 scheduled-Reach

tick_partition_example :
    (fired : List Reminder) × ((tick 4_000_005 scheduled).1
      ≡ map reminder_fired fired ++ due_events 4_000_005 scheduled.cron_jobs)
    × (fired ++ pending (tick 4_000_005 scheduled).0.reminders ≡ pending scheduled.reminders)
    × All (FiresBy 4_000_005) fired
    × All (FiresAfter 4_000_005) (pending (tick 4_000_005 scheduled).0.reminders)
tick_partition_example = tick_partition 4_000_005 scheduled scheduled-IsWell scheduled_after_epoch

tick-next_wake_example :
    is_empty (tick 4_000_005 scheduled).1 ≡ not (woken 4_000_005 (next_wake scheduled))
tick-next_wake_example = tick-next_wake 4_000_005 scheduled scheduled-IsWell scheduled_after_epoch

tick_twice_example : (tick 20_000_000_000 (tick 20_000_000_000 scheduled).0).1 ≡ []
tick_twice_example = tick_twice 20_000_000_000 scheduled scheduled-IsWell scheduled_intervals

remove_reminder_outcome_example :
    ((remove_reminder (codes "reminder-1") scheduled ≡ err (not_found (codes "reminder-1")))
      × (count (codes "reminder-1") (pending scheduled.reminders) ≡ 0))
    ⊎ ((t : Scheduler) × (remove_reminder (codes "reminder-1") scheduled ≡ ok t)
        × ((j : Text)
            → count j (pending scheduled.reminders)
              ≡ (if text_eq (codes "reminder-1") j then 1 else 0) + count j (pending t.reminders)))
remove_reminder_outcome_example = remove_reminder_outcome (codes "reminder-1") scheduled
