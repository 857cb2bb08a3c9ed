-- ===== src/Task/Row.antt =====
-- src/fleet_api/tasks/models.py: the rows of the tables `tasks` and `task_events`.
use fleet_api.Base.{ℕ, String, Option, none, some, Result, ok, ◌>>◌, ◌==◌, if◌then◌else◌}
use fleet_api.Json.{Json, Dict}
use fleet_api.Task.Status.{TaskStatus, InvalidStateTransition, validate_transition, is_terminal}

pub data TaskPriority : Type 0 where
  low normal high critical : TaskPriority

unfoldable pub priority_value : TaskPriority → String
priority_value low = "low"
priority_value normal = "normal"
priority_value high = "high"
priority_value critical = "critical"

-- `TaskPriority(text)`; `none` is its ValueError
unfoldable pub parse_priority : String → Option TaskPriority
parse_priority text =
    if text == "low"
    then some low
    else if text == "normal"
    then some normal
    else if text == "high"
    then some high
    else if text == "critical"
    then some critical
    else none

-- Times are in microseconds; a `result` of None is `null`.
pub record Task : Type 0 where
  pub id : String
  pub workflow_id : String
  pub principal_agent_id : String
  pub executor_agent_id : Option String
  pub status : TaskStatus
  pub input : Dict
  pub result : Json
  pub priority : TaskPriority
  pub timeout_seconds : Option ℕ
  pub parent_task_id : Option String
  pub root_task_id : Option String
  pub lineage_depth : ℕ
  pub delegation_depth : ℕ
  pub callback_url : Option String
  pub idempotency_key : Option String
  pub created_at : ℕ
  pub started_at : Option ℕ
  pub completed_at : Option ℕ
  pub paused_at : Option ℕ
  pub metadata : Option Dict

-- the event's `id` is generated by the database and read by nothing here
pub record TaskEvent : Type 0 where
  pub task_id : String
  pub event_type : String
  pub event_data : Option Dict
  pub sequence : ℕ
  pub created_at : ℕ

-- `Task.transition_to`, `now` being what `now_utc()` returns
unfoldable pub transition_to : ℕ → TaskStatus → Task → Result InvalidStateTransition Task
unfolding validate_transition
transition_to now new_status task = do
  validate_transition task.status new_status
  let moved = record task { status = new_status }
  ok (if is_terminal new_status then record moved { completed_at = some now } else moved)
