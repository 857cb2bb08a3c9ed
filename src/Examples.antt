-- ===== src/Examples.antt =====
-- A small fleet, at which the theorems are applied: a principal, an executor, a workflow, and requests.
mod Collation
mod Clients
mod Signing
mod Answers
mod Promises
mod Newcomers
mod Overlaps
mod Sidecars
mod Streams
mod Histories
mod Operations
mod Fleet
mod Succession
use fleet_api.Base.{ℕ, String, Bool, true, Option, none, some, List, [], ◌∷◌}
use fleet_api.Json.{Json, Dict, empty, entry, str, null}
use fleet_api.Agent.{Agent, AgentStatus, active, registered}
use fleet_api.Workflow.{Workflow}
use fleet_api.Task.Status.{TaskStatus, accepted, running, paused, cancelled}
use fleet_api.Task.Row.{Task, TaskEvent, normal}
use fleet_api.Settings.{Ambient, Settings, default_settings}
use fleet_api.Store.{Db}
use fleet_api.Crud.{NewTask}
use fleet_api.Api.{Externals, Request, run, post_event, retask, cancel}

abbrev pub ext : Externals
ext = record {
  digest = λ d. "digest";
  conforms = λ input schema. true;
  in_place = λ old new. old;
  int_of = λ j. none;
}

abbrev pub at_time : ℕ → String → Ambient
at_time n k = record { now = n; new_id = k }

abbrev pub agent : String → AgentStatus → Option ℕ → Agent
agent k status beat = record {
  id = k;
  display_name = none;
  public_key = "key";
  capabilities = none;
  status = status;
  last_heartbeat = beat;
  registered_at = 0;
  endpoint = none;
}

abbrev pub order : NewTask
order = record {
  workflow_id = "wf";
  caller_agent_id = "alice";
  input_data = entry "n" (str "1") empty;
  executor_agent_id = some "bob";
  priority = "normal";
  timeout_seconds = none;
  idempotency_key = some "once";
  metadata = none;
  callback_url = none;
}

abbrev pub row : TaskStatus → Option ℕ → Option ℕ → Task
row status closed halted = record {
  id = "t1";
  workflow_id = "wf";
  principal_agent_id = "alice";
  executor_agent_id = some "bob";
  status = status;
  input = entry "n" (str "1") empty;
  result = null;
  priority = normal;
  timeout_seconds = none;
  parent_task_id = none;
  root_task_id = none;
  lineage_depth = 0;
  delegation_depth = 0;
  callback_url = none;
  idempotency_key = some "once";
  created_at = 1;
  started_at = none;
  completed_at = closed;
  paused_at = halted;
  metadata = none;
}

abbrev pub event : String → ℕ → TaskEvent
event event_type n = record {
  task_id = "t1";
  event_type = event_type;
  event_data = none;
  sequence = n;
  created_at = n;
}

abbrev pub workflow : Workflow
workflow = record {
  id = "wf";
  name = "wf";
  owner_agent_id = "alice";
  description = none;
  input_schema = none;
  output_schema = none;
  estimated_duration_seconds = none;
  timeout_seconds = none;
  result_retention_days = 30;
  status = fleet_api.Workflow.WorkflowStatus.active;
  tags = none;
  created_at = 0;
  updated_at = none;
}

abbrev pub fleet : List Agent
fleet = agent "alice" registered none ∷ agent "bob" active (some 1) ∷ []

-- the database with some tasks and events
abbrev pub stock : List Task → List TaskEvent → Db
stock tasks events = record {
  agents = fleet;
  workflows = workflow ∷ [];
  tasks = tasks;
  events = events;
}

-- a task is created, started, completed, and retasked
abbrev pub requests : List (Ambient × Request)
requests =
    (at_time 1 "t1", run order)
    ∷ (at_time 2 "", post_event "t1" "status" (entry "status" (str "running") empty) 2 "bob")
    ∷ (at_time 3 "", post_event "t1" "completed" (entry "result" (str "2") empty) 3 "bob")
    ∷ (at_time 4 "t2", retask "wf" "t1" "alice" empty none none)
    ∷ []
