-- ===== src/Lifecycle/Access.antt =====
-- The first three steps of every principal's operation: the workflow, the task in it, the caller's
-- right. lifecycle.py and context.py repeat them word for word.
use fleet_api.Base.{
  ℕ, true, String, Bool, not, ◌&&◌, Option, none, some, Result, ok, err, ◌>>=◌, ◌>>◌, require,
  or_raise, ◌==◌, if◌then◌else◌, ◌≡◌, eq_iff, arith,
}
use fleet_api.Errors.{ErrorCode, workflow_not_found, task_not_found, not_authorized}
use fleet_api.Workflow.{Workflow}
use fleet_api.Task.Status.{TaskStatus, InvalidStateTransition, valid_transitions}
use fleet_api.Task.Evolution.{moved, transition_to-eq-ok}
use fleet_api.Task.Row.{Task, transition_to}
use fleet_api.Store.{Db, find_task, find_workflow}

abbrev pub in_workflow : String → Option Task → Result ErrorCode Task
in_workflow workflow_id none = err task_not_found
in_workflow workflow_id (some task) =
    if not (task.workflow_id == workflow_id) then err task_not_found else ok task

abbrev pub is_permitted : String → Workflow → Task → Bool
is_permitted caller workflow task =
    not (not (caller == task.principal_agent_id) && not (caller == workflow.owner_agent_id))

unfoldable pub fetch_permitted : Db → String → String → String → Result ErrorCode Task
fetch_permitted db workflow_id task_id caller = do
  workflow ← or_raise (find_workflow workflow_id db) workflow_not_found
  task ← in_workflow workflow_id (find_task task_id db)
  require (is_permitted caller workflow task) not_authorized
  ok task

-- `except InvalidStateTransition: raise StateError(code=...)`
abbrev pub or_state_error :
    {A : Type 0} → Result InvalidStateTransition A → ErrorCode → Result ErrorCode A
or_state_error (ok a) code = ok a
or_state_error (err _) code = err code

-- What the three steps establish.
pub fetch_permitted-eq-ok :
    (db : Db) (workflow_id task_id caller : String) (task : Task)
    → fetch_permitted db workflow_id task_id caller ≡ ok task
    → (find_task task_id db ≡ some task) × (task.workflow_id ≡ workflow_id)
unfolding fetch_permitted
fetch_permitted-eq-ok db workflow_id task_id caller task h =
    ground (arith, eq_iff task.workflow_id workflow_id)

-- What a transition that the handler does not see refused has done.
pub or_state_error-eq-ok :
    (now : ℕ) (s : TaskStatus) (task new : Task) (code : ErrorCode)
    → or_state_error (transition_to now s task) code ≡ ok new
    → (valid_transitions task.status s ≡ true) × (new ≡ moved now s task)
or_state_error-eq-ok now s task new code h = transition_to-eq-ok now s task new (ground arith)
