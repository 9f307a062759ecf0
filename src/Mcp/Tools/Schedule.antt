-- ===== src/Mcp/Tools/Schedule.antt =====
-- `SchedulerToolHandler`: the tools for reminders and cron jobs. The scheduler that it shares is its
-- state; the clock is an argument, with the latest time that it can hold: a call is `none` where the
-- code panics. That the clock can hold a day is assumed.
use tttt.Base.{
  ℕ, ◌+◌, ◌*◌, ◌/◌, Option, none, some, [], ◌∷◌, ◌++◌, map, if◌then◌else◌, Result, ok, err,
}
use tttt.Base.Text.{Text, codes, text_eq}
use tttt.Scheduler
use tttt.Scheduler.{Scheduler, Reminder, CronJob, BusyPolicy, drop, wait, nanos_per_sec}
use tttt.Scheduler.Interval.{SchedulerError, invalid_expression, not_found}
use tttt.Mcp.Protocol.{Json, McpError, tool_not_found, invalid_params, scheduler}
use tttt.Mcp.Tools.Numbers.{Numbers, bounded_integer}
use tttt.Mcp.Tools.WaitFor.{max_delay_seconds}

-- The printed errors of crates/tttt-scheduler/src/error.rs.
unfoldable pub describe : SchedulerError → Text
describe (invalid_expression expression) = codes "invalid cron expression: " ++ expression
describe (not_found id) = codes "job not found: " ++ id

unfoldable pub from_scheduler : SchedulerError → McpError
from_scheduler e = scheduler (codes "scheduler error: " ++ describe e)

-- `format!("{:?}", policy).to_lowercase()`
unfoldable pub policy_name : BusyPolicy → Text
policy_name drop = codes "drop"
policy_name wait = codes "wait"

module _ (J : Json) (N : Numbers J) where
  abbrev pub Call : Type 0
  Call = Result McpError J.Value × Scheduler

  abbrev ok_status : J.Value
  ok_status = J.object ((codes "status", J.string (codes "ok")) ∷ [])

  abbrev missing : Text → Scheduler → Call
  missing name s = (err (invalid_params (name ++ codes " required")), s)

  abbrev pub reminder_added : Scheduler × Text → Call
  reminder_added (s, id) = (ok (J.object ((codes "reminder_id", J.string id) ∷ [])), s)

  abbrev pub reminder_in : ℕ → Text → Option Text → Result McpError ℕ → Scheduler → Call
  reminder_in now message session_id (err e) s = (err e, s)
  reminder_in now message session_id (ok delay_seconds) s =
      reminder_added
        (Scheduler.add_reminder message session_id (now + delay_seconds * nanos_per_sec) s)

  abbrev pub reminder_for : ℕ → J.Value → Option Text → Scheduler → Call
  reminder_for now args none s = missing (codes "message") s
  reminder_for now args (some message) s =
      reminder_in now message (J.as_str (J.index args (codes "session_id")))
        (bounded_integer J N (J.index args (codes "delay_seconds")) none max_delay_seconds
          (codes "delay_seconds"))
        s

  unfoldable pub handle_reminder_set : ℕ → J.Value → Scheduler → Call
  handle_reminder_set now args s =
      reminder_for now args (J.as_str (J.index args (codes "message"))) s

  abbrev or_null : Option Text → J.Value
  or_null none = J.null
  or_null (some t) = J.string t

  abbrev reminder_value : Reminder × ℕ → J.Value
  reminder_value (r, remaining) = J.object (
      (codes "id", J.string r.id)
      ∷ (codes "message", J.string r.message)
      ∷ (codes "session_id", or_null r.session_id)
      ∷ (codes "fires_in_seconds", N.number (remaining / nanos_per_sec))
      ∷ [])

  unfoldable pub handle_reminder_list : ℕ → Scheduler → Call
  handle_reminder_list now s =
      (ok (J.array (map reminder_value (Scheduler.list_reminders now s))), s)

  abbrev pub removed : Scheduler → Result SchedulerError Scheduler → Call
  removed s (err e) = (err (from_scheduler e), s)
  removed s (ok t) = (ok ok_status, t)

  abbrev pub reminder_removed : Option Text → Scheduler → Call
  reminder_removed none s = missing (codes "reminder_id") s
  reminder_removed (some id) s = removed s (Scheduler.remove_reminder id s)

  unfoldable pub handle_reminder_cancel : J.Value → Scheduler → Call
  handle_reminder_cancel args s = reminder_removed (J.as_str (J.index args (codes "reminder_id"))) s

  abbrev pub cron_added :
      Scheduler → Option (Result SchedulerError (Scheduler × Text)) → Option Call
  cron_added s none = none
  cron_added s (some (err e)) = some (err (from_scheduler e), s)
  cron_added s (some (ok (t, id))) = some (ok (J.object ((codes "job_id", J.string id) ∷ [])), t)

  abbrev pub cron_for : ℕ → ℕ → J.Value → Option Text → Option Text → Scheduler → Option Call
  cron_for max_instant now args none command s = some (missing (codes "expression") s)
  cron_for max_instant now args (some expression) none s = some (missing (codes "command") s)
  cron_for max_instant now args (some expression) (some command) s = cron_added s (
      Scheduler.add_cron max_instant expression command
        (J.as_str (J.index args (codes "session_id")))
        (Scheduler.from_str_opt (J.as_str (J.index args (codes "if_busy")))) now s)

  unfoldable pub handle_cron_create : ℕ → ℕ → J.Value → Scheduler → Option Call
  handle_cron_create max_instant now args s =
      cron_for max_instant now args (J.as_str (J.index args (codes "expression")))
        (J.as_str (J.index args (codes "command"))) s

  abbrev job_value : CronJob → J.Value
  job_value j = J.object (
      (codes "id", J.string j.id)
      ∷ (codes "expression", J.string j.expression)
      ∷ (codes "command", J.string j.command)
      ∷ (codes "session_id", or_null j.session_id)
      ∷ (codes "if_busy", J.string (policy_name j.if_busy))
      ∷ [])

  unfoldable pub handle_cron_list : Scheduler → Call
  handle_cron_list s = (ok (J.array (map job_value (Scheduler.list_cron s))), s)

  abbrev pub cron_removed : Option Text → Scheduler → Call
  cron_removed none s = missing (codes "job_id") s
  cron_removed (some id) s = removed s (Scheduler.remove_cron id s)

  unfoldable pub handle_cron_delete : J.Value → Scheduler → Call
  handle_cron_delete args s = cron_removed (J.as_str (J.index args (codes "job_id"))) s

  unfoldable pub handle_tool_call : ℕ → ℕ → Text → J.Value → Scheduler → Option Call
  handle_tool_call max_instant now name args s =
      if text_eq name (codes "tttt_reminder_set")
      then some (handle_reminder_set now args s)
      else if text_eq name (codes "tttt_reminder_list")
      then some (handle_reminder_list now s)
      else if text_eq name (codes "tttt_reminder_cancel")
      then some (handle_reminder_cancel args s)
      else if text_eq name (codes "tttt_cron_create")
      then handle_cron_create max_instant now args s
      else if text_eq name (codes "tttt_cron_list")
      then some (handle_cron_list s)
      else if text_eq name (codes "tttt_cron_delete")
      then some (handle_cron_delete args s)
      else some (err (tool_not_found name), s)
