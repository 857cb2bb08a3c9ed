-- ===== src/Polling.antt =====
-- What an agent polls: `get_pending_tasks` and `get_pending_signals` of src/fleet_api/tasks/crud.py.
use fleet_api.Base.{
  ℕ, ◌+◌, ◌*◌, String, Bool, true, false, ◌&&◌, ◌||◌, Option, none, some, List, [], ◌∷◌, ◌++◌, map,
  ltb, leb, ◌==◌, if◌then◌else◌, select, any, sort,
}
use fleet_api.Base.Int.{second}
use fleet_api.Json.{Dict, entry}
use fleet_api.Task.Status.{TaskStatus, accepted, cancelled, redirected, is_in_flight}
use fleet_api.Task.Row.{Task, TaskEvent, TaskPriority, low, normal, high, critical}
use fleet_api.Store.{Db}
use fleet_api.Sidecar.{is_executor}

-- the arguments of `func.case`, beside `else_=0`
abbrev pub priority_whens : List (TaskPriority × ℕ)
priority_whens = (critical, 4) ∷ (high, 3) ∷ (normal, 2) ∷ (low, 1) ∷ []

unfoldable pub is_accepted : TaskStatus → Bool
is_accepted accepted = true
is_accepted _ = false

-- ORDER BY priority_order DESC, created_at ASC
abbrev pub is_served_first : (TaskPriority → ℕ) → Task → Task → Bool
is_served_first order a b =
    ltb (order b.priority) (order a.priority)
    || leb (order b.priority) (order a.priority) && leb a.created_at b.created_at

abbrev pub is_pending : String → Task → Bool
is_pending agent_id t = is_executor t.executor_agent_id agent_id && is_accepted t.status

-- SQLAlchemy's `func.case(*whens, else_=n)`: the weight of a row's priority, or `none` for the exception
-- that the call raises.
abbrev pub FuncCase : Type 0
FuncCase = List (TaskPriority × ℕ) → ℕ → Option (TaskPriority → ℕ)

unfoldable pub get_pending_tasks : FuncCase → String → Db → Option (List Task)
unfolding is_accepted
get_pending_tasks func_case agent_id db = elim (func_case priority_whens 0) [
  | none ↦ none
  | some order ↦ some (sort (is_served_first order) (select (is_pending agent_id) db.tasks))
]

-- an element of the array `signals`; the timestamp is the time that `isoformat()` prints
pub record SignalItem : Type 0 where
  pub task_id : String
  pub signal_type : String
  pub timestamp : ℕ
  pub payload : Option Dict

-- `if evt.data:`
abbrev present_data : Option Dict → Option Dict
present_data (some (entry k v d)) = some (entry k v d)
present_data _ = none

abbrev pub event_signal : TaskEvent → SignalItem
event_signal e = record {
  task_id = e.task_id;
  signal_type = e.event_type;
  timestamp = e.created_at;
  payload = present_data e.event_data;
}

unfoldable pub is_signal_type : String → Bool
is_signal_type t = t == "pause_requested" || t == "resume_requested" || t == "context_injected"

-- the subquery for the tasks that the agent is executing
abbrev pub is_active_task : String → String → Task → Bool
is_active_task agent_id k t =
    t.id == k && is_executor t.executor_agent_id agent_id && is_in_flight t.status

abbrev pub is_signal : String → Db → TaskEvent → Bool
is_signal agent_id db e =
    any (is_active_task agent_id e.task_id) db.tasks && is_signal_type e.event_type

abbrev pub is_earlier : TaskEvent → TaskEvent → Bool
is_earlier a b = leb a.created_at b.created_at

unfoldable pub terminated_type : TaskStatus → Option String
terminated_type cancelled = some "cancel_requested"
terminated_type redirected = some "redirect_requested"
terminated_type _ = none

-- completed in the last 60 seconds
abbrev is_recent : ℕ → Option ℕ → Option ℕ
is_recent now none = none
is_recent now (some t) = if leb now (t + 60 * second) then some t else none

abbrev terminated_signal : ℕ → String → Task → List SignalItem
terminated_signal now agent_id t =
    if is_executor t.executor_agent_id agent_id
    then elim (terminated_type t.status) [
      | none ↦ []
      | some kind ↦ elim (is_recent now t.completed_at) [
        | none ↦ []
        | some at_time ↦
            record { task_id = t.id; signal_type = kind; timestamp = at_time; payload = none } ∷ []
      ]
    ]
    else []

unfoldable pub terminated_signals : ℕ → String → List Task → List SignalItem
unfolding terminated_type
terminated_signals now agent_id [] = []
terminated_signals now agent_id (t ∷ tasks) =
    terminated_signal now agent_id t ++ terminated_signals now agent_id tasks

abbrev pub is_executing : String → Task → Bool
is_executing agent_id t = is_executor t.executor_agent_id agent_id && is_in_flight t.status

-- An agent with no active task gets no signals.
unfoldable pub get_pending_signals : ℕ → String → Db → List SignalItem
unfolding is_signal_type is_in_flight terminated_signals
get_pending_signals now agent_id db =
    if any (is_executing agent_id) db.tasks
    then map event_signal (sort is_earlier (select (is_signal agent_id db) db.events))
      ++ terminated_signals now agent_id db.tasks
    else []
