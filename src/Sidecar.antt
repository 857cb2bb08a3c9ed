-- ===== src/Sidecar.antt =====
-- src/fleet_api/tasks/sidecar.py: the events that the executor posts.
use fleet_api.Base.{
  ℕ, String, Bool, false, not, ◌&&◌, ◌||◌, Option, none, some, Result, ok, ◌>>=◌, ◌>>◌, require,
  or_raise, is_some, [], ◌∷◌, ◌==◌, leb, if◌then◌else◌,
}
use fleet_api.Errors.{
  ErrorCode, invalid_input, task_not_found, not_authorized, invalid_state_transition,
}
use fleet_api.Json.{Json, Dict, empty, entry, str, obj, get, put, or_null, present, is_truthy}
use fleet_api.Task.Status.{TaskStatus, completed, failed, parse, is_running, is_terminal}
use fleet_api.Task.Row.{Task, TaskEvent, transition_to}
use fleet_api.Settings.{Ambient}
use fleet_api.Store.{Db, Outcome, settle, find_task, max_sequence}
use fleet_api.Lifecycle.Access.{or_state_error}

-- membership in _VALID_EVENT_TYPES
unfoldable pub is_valid_event_type : String → Bool
is_valid_event_type t =
    t == "status"
    || t == "progress"
    || t == "log"
    || t == "completed"
    || t == "failed"
    || t == "heartbeat"
    || t == "context_injected"
    || t == "escalation"

-- `TaskStatus(data.get("status", ""))`: a value that is no text is no status
abbrev pub requested_status : Option Json → Option TaskStatus
requested_status (some (str text)) = parse text
requested_status _ = none

abbrev pub is_executor : Option String → String → Bool
is_executor none agent = false
is_executor (some executor) agent = executor == agent

-- `if new_status == RUNNING and task.started_at is None: task.started_at = now`
abbrev pub start : ℕ → TaskStatus → Task → Task
start now status task =
    if is_running status && not (is_some task.started_at)
    then record task { started_at = some now }
    else task

abbrev put_present : String → Option Json → Dict → Dict
put_present key value d = elim (present value) [ none ↦ d | some j ↦ put key j d ]

unfoldable pub report_quality : Dict → Dict → Dict
unfolding get put
report_quality payload d =
    put_present "warnings" (get "warnings" payload)
      (put_present "quality" (get "quality" payload) d)

abbrev has_report : Dict → Bool
has_report payload =
    is_some (present (get "quality" payload)) || is_some (present (get "warnings" payload))

unfoldable pub report_progress : Json → Dict → Dict → Dict
unfolding get put is_truthy
report_progress progress payload d =
    let d' = put "progress" progress d in
    elim (get "message" payload) [
      | none ↦ d'
      | some message ↦ if is_truthy message then put "progress_message" message d' else d'
    ]

unfoldable pub failure_result : Dict → Json
unfolding get
failure_result payload = obj (
    entry "error_code" (or_null (get "error_code" payload))
      (entry "message" (or_null (get "message" payload)) empty))

unfoldable pub event_record : Ambient → String → String → Dict → ℕ → TaskEvent
event_record call task_id event_type payload sequence = record {
  task_id = task_id;
  event_type = event_type;
  event_data = some payload;
  sequence = sequence;
  created_at = call.now;
}

-- the event, the task as it was committed, and whether a callback was scheduled
pub record Receipt : Type 0 where
  pub event : TaskEvent
  pub task : Task
  pub is_callback_scheduled : Bool

unfoldable pub on_status : ℕ → Dict → Task → Result ErrorCode Task
unfolding get is_running
on_status now payload task = do
  new_status ← or_raise (requested_status (get "status" payload)) invalid_input
  moved ← or_state_error (transition_to now new_status task) invalid_state_transition
  ok (start now new_status moved)

unfoldable pub on_failed : ℕ → Dict → Task → Result ErrorCode Task
unfolding failure_result
on_failed now payload task = do
  moved ← or_state_error (transition_to now failed task) invalid_state_transition
  ok (record moved { result = failure_result payload })

-- What the column `metadata` holds after a commit where the code has changed the loaded dictionary
-- in place: `in_place loaded changed`. The ORM decides that.
module _ (in_place : Dict → Dict → Dict) where
  -- The event type "completed": a missing or empty dictionary is replaced, and so written; another
  -- is changed in place.
  abbrev write_report : Dict → Option Dict → Option Dict
  write_report payload none = some (report_quality payload empty)
  write_report payload (some empty) = some (report_quality payload empty)
  write_report payload (some (entry k v d)) =
      some (in_place (entry k v d) (report_quality payload (entry k v d)))

  abbrev write_progress : Json → Dict → Option Dict → Option Dict
  write_progress progress payload none = some (report_progress progress payload empty)
  write_progress progress payload (some d) = some (in_place d (report_progress progress payload d))

  unfoldable pub on_completed : ℕ → Dict → Task → Result ErrorCode Task
  unfolding get
  on_completed now payload task = do
    moved ← or_state_error (transition_to now completed task) invalid_state_transition
    let finished = record moved { result = or_null (get "result" payload) }
    ok (
        if has_report payload
        then record finished { metadata = write_report payload task.metadata }
        else finished)

  unfoldable pub on_progress : Dict → Task → Result ErrorCode Task
  unfolding get
  on_progress payload task = do
    progress ← or_raise (get "progress" payload) invalid_input
    ok (record task { metadata = write_progress progress payload task.metadata })

  -- step 5, by the event's type; the other types change nothing
  unfoldable pub process_event : ℕ → String → Dict → Task → Result ErrorCode Task
  process_event now event_type payload task =
      if event_type == "status"
      then on_status now payload task
      else if event_type == "completed"
      then on_completed now payload task
      else if event_type == "failed"
      then on_failed now payload task
      else if event_type == "progress"
      then on_progress payload task
      else ok task

  unfoldable pub process_sidecar_event :
      Ambient → Db → String → String → Dict → ℕ → String → Outcome Receipt
  unfolding event_record
  process_sidecar_event call db task_id event_type payload sequence agent = settle do
    require (is_valid_event_type event_type) invalid_input
    task ← or_raise (find_task task_id db) task_not_found
    require (is_executor task.executor_agent_id agent) not_authorized
    require (not (leb sequence (max_sequence task_id db.events))) invalid_input
    task' ← process_event call.now event_type payload task
    let event = event_record call task_id event_type payload sequence
    ok (record {
      reply = ok (record {
        event = event;
        task = task';
        is_callback_scheduled = is_terminal task'.status && is_some task'.callback_url;
      });
      work = record { updated = some task'; added = none; new_events = event ∷ [] };
    })
