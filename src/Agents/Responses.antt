-- ===== src/Agents/Responses.antt =====
-- The responses of src/fleet_api/agents/routes.py; `stamp` is the text of a time.
use Prim.Native.String.{◌++◌}
use fleet_api.Base.{
  ℕ, String, Option, none, some, List, [], ◌∷◌, Result, ok, ◌>>=◌, ◌>>◌, require, or_raise, ◌==◌,
  if◌then◌else◌, is_some,
}
use fleet_api.Base.Int.{pos}
use fleet_api.Errors.{ErrorCode, Reply, api, uncaught, not_authorized, endpoint_not_found}
use fleet_api.Json.{
  Json, Dict, Items, nil, cons, empty, entry, null, num, str, stamp, arr, obj, optional_str,
}
use fleet_api.Responses.{optional_stamp}
use fleet_api.Agent.{Agent, AgentStatus, registered, active, unreachable, suspended}
use fleet_api.Task.Row.{Task, priority_value}
use fleet_api.Store.{Db, find_agent}
use fleet_api.Registry.{Registration, register_agent, heartbeat}
use fleet_api.Polling.{SignalItem, FuncCase, get_pending_tasks, get_pending_signals}
use fleet_api.Http.{Response, href}
use fleet_api.Routes.{texts, optional_count}

unfoldable pub status_value : AgentStatus → String
status_value registered = "registered"
status_value active = "active"
status_value unreachable = "unreachable"
status_value suspended = "suspended"

-- a `LinkObject` with its method
abbrev link : String → String → Json
link path method = obj (entry "href" (str path) (entry "method" (str method) empty))

unfoldable pub agent_links : String → Dict
agent_links agent_id = entry "self" (link ("/agents/" ++ agent_id) "GET") (
    entry "heartbeat" (link ("/agents/" ++ (agent_id ++ "/heartbeat")) "POST")
      (entry "workflows" (link "/workflows" "GET") empty))

abbrev onboarding_step : ℕ → String → String → String → Json
onboarding_step n action path hint = obj (
    entry "step" (num (pos n))
      (entry "action" (str action) (entry "endpoint" (str path) (entry "hint" (str hint) empty))))

unfoldable pub onboarding_steps : String → Items
onboarding_steps agent_id =
    cons
      (onboarding_step 1 "Send your first heartbeat to activate the agent"
        ("/agents/" ++ (agent_id ++ "/heartbeat"))
        "POST with a signed request to transition from registered to active")
      (cons
        (onboarding_step 2 "Register a workflow" "/workflows"
          "POST a workflow definition to begin accepting tasks")
        (cons
          (onboarding_step 3 "Check the manifest for available endpoints" "/manifest"
            "GET /manifest returns the full API surface")
          nil))

abbrev optional_texts : Option (List String) → Json
optional_texts none = null
optional_texts (some ss) = arr (texts ss)

unfoldable pub register_body : Agent → Dict
unfolding status_value agent_links onboarding_steps
register_body a = entry "agent_id" (str a.id) (
    entry "display_name" (optional_str a.display_name) (
      entry "public_key" (str a.public_key) (
        entry "capabilities" (optional_texts a.capabilities) (
          entry "status" (str (status_value a.status)) (
            entry "registered_at" (stamp a.registered_at) (
              entry "onboarding" (arr (onboarding_steps a.id))
                (entry "_links" (obj (agent_links a.id)) empty)))))))

-- The endpoint of a registration, which is 200 for an agent that is there.
unfoldable pub register_endpoint : ℕ → Registration → Db → Result ErrorCode (Response × Db)
unfolding register_agent register_body
register_endpoint now r db = do
  done ← register_agent now r db
  let status = if is_some (find_agent r.agent_id db) then 200 else 201
  ok (record { status_code = status; content = register_body done.0 }, done.1)

-- `HeartbeatResponse`
unfoldable pub heartbeat_endpoint : ℕ → String → String → Db → Result ErrorCode (Response × Db)
unfolding heartbeat status_value agent_links
heartbeat_endpoint now caller agent_id db = do
  done ← heartbeat now caller agent_id db
  let a = done.0
  ok (
    record {
      status_code = 200;
      content = entry "agent_id" (str a.id) (
          entry "status" (str (status_value a.status)) (
            entry "last_heartbeat" (optional_stamp a.last_heartbeat)
              (entry "_links" (obj (agent_links a.id)) empty)));
    },
    done.1,
  )

unfoldable pub agent_endpoint : String → Db → Result ErrorCode Response
unfolding status_value agent_links
agent_endpoint agent_id db = do
  a ← or_raise (find_agent agent_id db) endpoint_not_found
  ok (record {
    status_code = 200;
    content = entry "agent_id" (str a.id) (
        entry "display_name" (optional_str a.display_name) (
          entry "public_key" (str a.public_key) (
            entry "capabilities" (optional_texts a.capabilities) (
              entry "status" (str (status_value a.status)) (
                entry "registered_at" (stamp a.registered_at) (
                  entry "last_heartbeat" (optional_stamp a.last_heartbeat)
                    (entry "_links" (obj (agent_links a.id)) empty)))))));
  })

unfoldable pub pending_task_item : Task → Dict
unfolding priority_value
pending_task_item t = entry "task_id" (str t.id) (
    entry "workflow_id" (str t.workflow_id) (
      entry "input" (obj t.input) (
        entry "priority" (str (priority_value t.priority)) (
          entry "timeout_seconds" (optional_count t.timeout_seconds)
            (entry "created_at" (stamp t.created_at) empty)))))

unfoldable pub pending_items : List Task → Items
unfolding pending_task_item
pending_items [] = nil
pending_items (t ∷ tasks) = cons (obj (pending_task_item t)) (pending_items tasks)

-- an element of `signals`, as get_pending_signals builds it
abbrev payload_entry : Option Dict → Dict
payload_entry none = empty
payload_entry (some d) = entry "payload" (obj d) empty

abbrev signal_object : SignalItem → Dict
signal_object s = entry "task_id" (str s.task_id) (
    entry "signal_type" (str s.signal_type)
      (entry "timestamp" (stamp s.timestamp) (payload_entry s.payload)))

unfoldable pub signal_items : List SignalItem → Items
signal_items [] = nil
signal_items (s ∷ signals) = cons (obj (signal_object s)) (signal_items signals)

-- the agent's poll: its pending tasks and its signals
unfoldable pub pending_response : String → List Task → List SignalItem → Response
unfolding pending_items signal_items
pending_response agent_id tasks signals = record {
  status_code = 200;
  content = entry "data" (arr (pending_items tasks)) (
      entry "signals" (arr (signal_items signals)) (
        entry "_links"
          (obj (entry "self" (href ("/agents/" ++ (agent_id ++ "/tasks/pending"))) empty)) empty));
}

unfoldable pub pending_endpoint : FuncCase → ℕ → String → String → Db → Reply Response
unfolding pending_response
pending_endpoint func_case now caller agent_id db = do
  require (caller == agent_id) (api not_authorized)
  tasks ← or_raise (get_pending_tasks func_case agent_id db) uncaught
  ok (pending_response agent_id tasks (get_pending_signals now agent_id db))
