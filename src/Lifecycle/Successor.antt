-- ===== src/Lifecycle/Successor.antt =====
-- What `retask_task` and `redirect_task` share: the depth limit, the priority of the new task, the
-- new row, and the pair of events.
use fleet_api.Base.{◌+◌, String, Bool, Option, none, some, Result, ok, or_raise, or_else}
use fleet_api.Errors.{ErrorCode, invalid_input}
use fleet_api.Json.{Dict, empty, entry, null, str}
use fleet_api.Task.Status.{accepted}
use fleet_api.Task.Row.{Task, TaskEvent, TaskPriority, parse_priority}
use fleet_api.Settings.{Ambient}

-- `TaskPriority(priority)` where one is given, else the priority of the original
unfoldable pub resolve_priority : Option String → Task → Result ErrorCode TaskPriority
resolve_priority none task = ok task.priority
resolve_priority (some text) task = or_raise (parse_priority text) invalid_input

unfoldable pub successor :
    Ambient → String → Task → Dict → TaskPriority → Option String → Dict → Task
successor call workflow_id task input priority key metadata = record {
  id = call.new_id;
  workflow_id = workflow_id;
  principal_agent_id = task.principal_agent_id;
  executor_agent_id = task.executor_agent_id;
  status = accepted;
  input = input;
  result = null;
  priority = priority;
  timeout_seconds = task.timeout_seconds;
  parent_task_id = some task.id;
  root_task_id = some (or_else task.root_task_id task.id);
  lineage_depth = task.lineage_depth + 1;
  delegation_depth = task.delegation_depth;
  callback_url = none;
  idempotency_key = key;
  created_at = call.now;
  started_at = none;
  completed_at = none;
  paused_at = none;
  metadata = some metadata;
}

-- the initial event of the new task; `link` is "retask_of" or "redirect_of"
unfoldable pub successor_event : Ambient → Task → String → TaskEvent
successor_event call task link = record {
  task_id = call.new_id;
  event_type = "created";
  event_data = some (
      entry "status" (str "accepted")
        (entry "caller" (str task.principal_agent_id) (entry link (str task.id) empty)));
  sequence = 1;
  created_at = call.now;
}

-- what both operations return: the new task, the original, and whether this is a replay
pub record Succession : Type 0 where
  pub new_task : Task
  pub original : Task
  pub is_replay : Bool
