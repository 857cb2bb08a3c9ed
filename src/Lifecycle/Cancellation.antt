-- ===== src/Lifecycle/Cancellation.antt =====
-- What a principal's operation replies, on every branch.
use fleet_api.Base.{
  ℕ, String, ◌≡◌, not, ◌||◌, Option, none, some, ok, err, ◌==◌, arith, if◌then◌else◌,
}
use fleet_api.Errors.{
  api, workflow_not_found, task_not_found, not_authorized, invalid_state_transition, Reply,
}
use fleet_api.Workflow.{Workflow}
use fleet_api.Task.Status.{cancelled, is_terminal, valid_transitions}
use fleet_api.Task.Row.{Task, transition_to}
use fleet_api.Settings.{Ambient}
use fleet_api.Store.{Db, find_task, find_workflow}
use fleet_api.Lifecycle.Access.{fetch_permitted}
use fleet_api.Lifecycle.Cancel.{cancel_task}

-- The reference: who may cancel what, and the first reason for a refusal.
pub cancel_reply : ℕ → String → String → Option Workflow → Option Task → Reply Task
cancel_reply now workflow_id caller none task = err (api workflow_not_found)
cancel_reply now workflow_id caller (some w) none = err (api task_not_found)
cancel_reply now workflow_id caller (some w) (some t) =
    if not (t.workflow_id == workflow_id)
    then err (api task_not_found)
    else if not (caller == t.principal_agent_id || caller == w.owner_agent_id)
    then err (api not_authorized)
    else if is_terminal t.status
    then err (api invalid_state_transition)
    else ok (record t { status = cancelled; completed_at = some now })

-- Every reply of `cancel_task` is the reference's.
pub cancel_task_lem :
    (call : Ambient) (db : Db) (workflow_id task_id caller : String) (reason : Option String)
    → (cancel_task call db workflow_id task_id caller reason).reply
      ≡ cancel_reply call.now workflow_id caller
          (find_workflow workflow_id db)
          (find_task task_id db)
unfolding cancel_task fetch_permitted transition_to valid_transitions is_terminal cancel_reply
cancel_task_lem call db workflow_id task_id caller reason = ground arith
