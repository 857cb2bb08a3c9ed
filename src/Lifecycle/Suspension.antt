-- ===== src/Lifecycle/Suspension.antt =====
-- `pause_task` and `resume_task`: what is replied and what is written, on every branch.
use fleet_api.Base.{
  ℕ, ◌+◌, ◌*◌, String, Bool, false, ◌≡◌, not, ◌||◌, Option, none, some, ok, err, ◌==◌, leb, arith,
  if◌then◌else◌,
}
use fleet_api.Base.Int.{second}
use fleet_api.Errors.{
  ErrorCode, Reply, api, workflow_not_found, task_not_found, not_authorized, task_not_paused,
  task_not_pausable, pause_timeout, invalid_input,
}
use fleet_api.Workflow.{Workflow}
use fleet_api.Task.Status.{
  running, paused, cancelled, is_running, is_paused, valid_transitions, is_terminal,
}
use fleet_api.Task.Row.{Task, TaskEvent, transition_to, parse_priority}
use fleet_api.Settings.{Settings, Ambient}
use fleet_api.Store.{Db, Outcome, find_task, find_workflow}
use fleet_api.Lifecycle.Access.{fetch_permitted}
use fleet_api.Lifecycle.Pause.{pause_task}
use fleet_api.Lifecycle.Resume.{resume_task, continue_task, auto_cancel, with_priority}

-- what a caller is told of the row, and the row that is written
abbrev pub seen : Outcome (Task × TaskEvent) → Reply Task × Option Task
seen o = (elim o.reply [ ok (t, _) ↦ ok t | err e ↦ err e ], o.work.updated)

abbrev refused : ErrorCode → Reply Task × Option Task
refused code = (err (api code), none)

abbrev written : Task → Reply Task × Option Task
written t = (ok t, some t)

-- the task's principal or the workflow's owner
abbrev may_act : String → Workflow → Task → Bool
may_act caller w t = caller == t.principal_agent_id || caller == w.owner_agent_id

-- the pause has lasted for more than the time to live
abbrev is_overdue : Settings → ℕ → Option ℕ → Bool
is_overdue settings now none = false
is_overdue settings now (some since) =
    not (leb now (since + settings.fleet_pause_ttl_seconds * second))

-- The reference of pausing: only a running task is paused, at the time of the call.
pub pause_view : ℕ → String → String → Option Workflow → Option Task → Reply Task × Option Task
pause_view now workflow_id caller none task = refused workflow_not_found
pause_view now workflow_id caller (some w) none = refused task_not_found
pause_view now workflow_id caller (some w) (some t) =
    if not (t.workflow_id == workflow_id)
    then refused task_not_found
    else if not (may_act caller w t)
    then refused not_authorized
    else if is_running t.status
    then written (record t { status = paused; paused_at = some now })
    else refused task_not_pausable

-- Every reply of `pause_task`, and the row that it writes, are the reference's.
pub pause_task_lem :
    (settings : Settings) (call : Ambient) (db : Db) (workflow_id task_id caller : String)
    (reason : Option String)
    → seen (pause_task settings call db workflow_id task_id caller reason)
      ≡ pause_view call.now workflow_id caller (find_workflow workflow_id db) (find_task task_id db)
unfolding pause_task fetch_permitted transition_to valid_transitions is_terminal pause_view
    is_running
pause_task_lem settings call db workflow_id task_id caller reason = ground arith

-- The row after a resumption in time, with the override of the priority.
restarted : Option String → Task → Reply Task × Option Task
restarted none t = written (record t { status = running; paused_at = none })
restarted (some text) t = elim (parse_priority text) [
  | none ↦ refused invalid_input
  | some p ↦ written (record t { status = running; paused_at = none; priority = p })
]

-- The reference of resuming: a pause that has lasted too long cancels the task, and the caller is
-- refused although that is written.
pub resume_view :
    Settings
    → ℕ
    → String
    → String
    → Option String
    → Option Workflow
    → Option Task
    → Reply Task × Option Task
unfolding restarted
resume_view settings now workflow_id caller priority none task = refused workflow_not_found
resume_view settings now workflow_id caller priority (some w) none = refused task_not_found
resume_view settings now workflow_id caller priority (some w) (some t) =
    if not (t.workflow_id == workflow_id)
    then refused task_not_found
    else if not (may_act caller w t)
    then refused not_authorized
    else if not (is_paused t.status)
    then refused task_not_paused
    else if is_overdue settings now t.paused_at
    then (err (api pause_timeout), some (record t { status = cancelled; completed_at = some now }))
    else restarted priority t

-- Every reply of `resume_task`, and the row that it writes, are the reference's.
pub resume_task_lem :
    (settings : Settings) (call : Ambient) (db : Db) (workflow_id task_id caller : String)
    (priority : Option String)
    → seen (resume_task settings call db workflow_id task_id caller priority)
      ≡ resume_view settings call.now workflow_id caller priority
          (find_workflow workflow_id db)
          (find_task task_id db)
unfolding resume_task continue_task auto_cancel with_priority fetch_permitted transition_to
    valid_transitions is_terminal resume_view restarted is_paused
resume_task_lem settings call db workflow_id task_id caller priority = ground arith
