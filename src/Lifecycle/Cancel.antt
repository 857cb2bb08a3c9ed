-- ===== src/Lifecycle/Cancel.antt =====
-- `cancel_task` of lifecycle.py.
use fleet_api.Base.{ℕ, ◌+◌, String, Option, none, some, ok, ◌>>=◌, [], ◌∷◌}
use fleet_api.Errors.{invalid_state_transition}
use fleet_api.Json.{empty, entry, str, optional_str}
use fleet_api.Task.Status.{cancelled, value}
use fleet_api.Task.Row.{Task, TaskEvent, transition_to}
use fleet_api.Settings.{Ambient}
use fleet_api.Store.{Db, Outcome, settle, max_sequence}
use fleet_api.Lifecycle.Access.{fetch_permitted, or_state_error}

unfoldable pub cancelled_event : Db → ℕ → Task → String → Option String → TaskEvent
cancelled_event db now task cancelled_by reason = record {
  task_id = task.id;
  event_type = "status";
  event_data = some (
      entry "from_status" (str (value task.status)) (
        entry "to_status" (str "cancelled")
          (entry "reason" (optional_str reason) (entry "cancelled_by" (str cancelled_by) empty))));
  sequence = max_sequence task.id db.events + 1;
  created_at = now;
}

unfoldable pub cancel_task : Ambient → Db → String → String → String → Option String → Outcome Task
unfolding cancelled_event
cancel_task call db workflow_id task_id cancelled_by reason = settle do
  task ← fetch_permitted db workflow_id task_id cancelled_by
  moved ← or_state_error (transition_to call.now cancelled task) invalid_state_transition
  ok (record {
    reply = ok moved;
    work = record {
      updated = some moved;
      added = none;
      new_events = cancelled_event db call.now task cancelled_by reason ∷ [];
    };
  })
