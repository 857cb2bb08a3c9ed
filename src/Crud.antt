-- ===== src/Crud.antt =====
-- `TaskService.create_task` of src/fleet_api/tasks/crud.py. `digest` is that of `check_idempotency`,
-- and `conforms schema input` tells whether `jsonschema.validate` accepts the input.
use fleet_api.Base.{
  ℕ, zero, suc, String, Bool, true, false, Option, none, some, Result, ok, ◌>>=◌, ◌>>◌, require,
  or_raise, not, [], ◌∷◌, ◌==◌, if◌then◌else◌,
}
use fleet_api.Errors.{ErrorCode, workflow_not_found, agent_suspended, invalid_input}
use fleet_api.Json.{Dict, empty, entry, null, str}
use fleet_api.Agent.{Agent, AgentStatus, suspended}
use fleet_api.Workflow.{Workflow}
use fleet_api.Task.Status.{accepted}
use fleet_api.Task.Row.{Task, TaskEvent, TaskPriority, parse_priority}
use fleet_api.Settings.{Ambient}
use fleet_api.Store.{Db, Outcome, settle, no_work, find_workflow, find_agent}
use fleet_api.Idempotency.{check_optional_key}

-- the arguments of `create_task`
pub record NewTask : Type 0 where
  pub workflow_id : String
  pub caller_agent_id : String
  pub input_data : Dict
  pub executor_agent_id : Option String
  pub priority : String
  pub timeout_seconds : Option ℕ
  pub idempotency_key : Option String
  pub metadata : Option Dict
  pub callback_url : Option String

pub record Dispatch : Type 0 where
  pub task : Task
  pub workflow : Workflow
  pub is_replay : Bool

-- `text or default`, and `n or default`: an empty text and a zero are false
abbrev pub or_text : Option String → String → String
or_text none default = default
or_text (some s) default = if s == "" then default else s

abbrev pub or_number : Option ℕ → Option ℕ → Option ℕ
or_number none default = default
or_number (some zero) default = default
or_number (some (suc n)) default = some (suc n)

unfoldable pub is_suspended : AgentStatus → Bool
is_suspended suspended = true
is_suspended _ = false

-- `_check_agent_not_suspended`: an agent that is not there passes
abbrev pub is_available : Option Agent → Bool
is_available none = true
is_available (some agent) = not (is_suspended agent.status)

unfoldable pub new_row : Ambient → NewTask → Workflow → TaskPriority → Task
new_row call args workflow priority = record {
  id = call.new_id;
  workflow_id = args.workflow_id;
  principal_agent_id = args.caller_agent_id;
  executor_agent_id = some (or_text args.executor_agent_id workflow.owner_agent_id);
  status = accepted;
  input = args.input_data;
  result = null;
  priority = priority;
  timeout_seconds = or_number args.timeout_seconds workflow.timeout_seconds;
  parent_task_id = none;
  root_task_id = none;
  lineage_depth = 0;
  delegation_depth = 0;
  callback_url = args.callback_url;
  idempotency_key = args.idempotency_key;
  created_at = call.now;
  started_at = none;
  completed_at = none;
  paused_at = none;
  metadata = args.metadata;
}

unfoldable pub created_event : Ambient → NewTask → TaskEvent
created_event call args = record {
  task_id = call.new_id;
  event_type = "created";
  event_data =
      some (entry "status" (str "accepted") (entry "caller" (str args.caller_agent_id) empty));
  sequence = 1;
  created_at = call.now;
}

module _ (conforms : Dict → Dict → Bool) where
  -- `validate_input`
  abbrev pub is_valid_input : Dict → Option Dict → Bool
  is_valid_input input none = true
  is_valid_input input (some schema) = conforms schema input

  unfoldable pub create_new : Ambient → Db → NewTask → Result ErrorCode (Outcome Dispatch)
  unfolding new_row created_event is_suspended
  create_new call db args = do
    workflow ← or_raise (find_workflow args.workflow_id db) workflow_not_found
    let executor = or_text args.executor_agent_id workflow.owner_agent_id
    require (is_available (find_agent executor db)) agent_suspended
    require (is_valid_input args.input_data workflow.input_schema) invalid_input
    priority ← or_raise (parse_priority args.priority) invalid_input
    let task = new_row call args workflow priority
    ok (record {
      reply = ok (record { task = task; workflow = workflow; is_replay = false });
      work = record {
        updated = none;
        added = some task;
        new_events = created_event call args ∷ [];
      };
    })

  module _ (digest : Dict → String) where
    unfoldable pub replay_existing : Db → NewTask → Task → Result ErrorCode (Outcome Dispatch)
    replay_existing db args existing = do
      workflow ← or_raise (find_workflow args.workflow_id db) workflow_not_found
      ok (record {
        reply = ok (record { task = existing; workflow = workflow; is_replay = true });
        work = no_work;
      })

    unfoldable pub create_task : Ambient → Db → NewTask → Outcome Dispatch
    unfolding create_new replay_existing
    create_task call db args = settle do
      existing ← check_optional_key digest db args.idempotency_key args.input_data
      elim existing [ some found ↦ replay_existing db args found | none ↦ create_new call db args ]
