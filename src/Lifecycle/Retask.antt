-- ===== src/Lifecycle/Retask.antt =====
-- `retask_task` of lifecycle.py.
use fleet_api.Base.{
  ◌+◌, String, true, false, Option, none, some, Result, ok, ◌>>=◌, ◌>>◌, require, [], ◌∷◌, ltb,
}
use fleet_api.Errors.{
  ErrorCode, retask_not_reviewable, retask_depth_exceeded, invalid_state_transition,
}
use fleet_api.Json.{Json, Dict, empty, entry, str, obj, get, update, or_null}
use fleet_api.Task.Status.{retasked, value, is_reviewable}
use fleet_api.Task.Row.{Task, TaskEvent, transition_to}
use fleet_api.Settings.{Settings, Ambient}
use fleet_api.Store.{Db, Outcome, settle, no_work, max_sequence}
use fleet_api.Idempotency.{check_optional_key}
use fleet_api.Lifecycle.Access.{fetch_permitted, or_state_error}
use fleet_api.Lifecycle.Successor.{Succession, resolve_priority, successor, successor_event}

-- `additional_input`, a dictionary or absent by the request's schema, laid over the input
abbrev merge : Dict → Option Json → Dict
merge input (some (obj extra)) = update input extra
merge input _ = input

unfoldable pub merged_input : Task → Dict → Dict
unfolding get update
merged_input task refinement = merge task.input (get "additional_input" refinement)

unfoldable pub retasked_event : Ambient → Db → Task → String → Dict → TaskEvent
unfolding get
retasked_event call db task caller refinement = record {
  task_id = task.id;
  event_type = "status";
  event_data = some (
      entry "from_status" (str (value task.status)) (
        entry "to_status" (str "retasked") (
          entry "retask_id" (str call.new_id) (
            entry "retasked_by" (str caller)
              (entry "refinement_message" (or_null (get "message" refinement)) empty)))));
  sequence = max_sequence task.id db.events + 1;
  created_at = call.now;
}

-- a replay returns the task that the key names and changes nothing
abbrev pub replay : Task → Task → Outcome Succession
replay existing task = record {
  reply = ok (record { new_task = existing; original = task; is_replay = true });
  work = no_work;
}

unfoldable pub retask_new :
    Ambient
    → Db
    → String
    → Task
    → String
    → Dict
    → Option String
    → Option String
    → Result ErrorCode (Outcome Succession)
unfolding merged_input retasked_event resolve_priority successor successor_event
retask_new call db workflow_id task caller refinement priority key = do
  moved ← or_state_error (transition_to call.now retasked task) invalid_state_transition
  resolved ← resolve_priority priority task
  let input = merged_input task refinement
  let metadata = entry "refinement" (obj refinement) empty
  let new_task = successor call workflow_id task input resolved key metadata
  ok (record {
    reply = ok (record { new_task = new_task; original = moved; is_replay = false });
    work = record {
      updated = some moved;
      added = some new_task;
      new_events =
          successor_event call task "retask_of"
          ∷ retasked_event call db task caller refinement
          ∷ [];
    };
  })

module _ (digest : Dict → String) where
  unfoldable pub retask_task :
      Settings
      → Ambient
      → Db
      → String
      → String
      → String
      → Dict
      → Option String
      → Option String
      → Outcome Succession
  unfolding retask_new is_reviewable
  retask_task settings call db workflow_id task_id caller refinement priority key = settle do
    task ← fetch_permitted db workflow_id task_id caller
    require (is_reviewable task.status) retask_not_reviewable
    require (ltb task.lineage_depth settings.fleet_lineage_max_depth) retask_depth_exceeded
    existing ← check_optional_key digest db key (merged_input task refinement)
    elim existing [
      | some found ↦ ok (replay found task)
      | none ↦ retask_new call db workflow_id task caller refinement priority key
    ]
