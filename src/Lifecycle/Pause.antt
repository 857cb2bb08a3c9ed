-- ===== src/Lifecycle/Pause.antt =====
-- `pause_task` of lifecycle.py.
use fleet_api.Base.{
  ℕ, ◌+◌, ◌*◌, String, true, Option, none, some, ok, ◌>>=◌, ◌>>◌, require, [], ◌∷◌,
}
use fleet_api.Base.Int.{pos, second}
use fleet_api.Errors.{task_not_pausable}
use fleet_api.Json.{Json, Dict, empty, entry, null, bool, num, stamp, str, obj, get, optional_str}
use fleet_api.Task.Status.{paused, value, is_running}
use fleet_api.Task.Row.{Task, TaskEvent, transition_to}
use fleet_api.Settings.{Settings, Ambient}
use fleet_api.Store.{Db, Outcome, settle, max_sequence}
use fleet_api.Lifecycle.Access.{fetch_permitted, or_state_error}

-- `metadata.get(key, default) if metadata else default`
unfoldable pub get_metadata : String → Json → Option Dict → Json
unfolding get
get_metadata key default none = default
get_metadata key default (some d) = elim (get key d) [ none ↦ default | some j ↦ j ]

paused_state : Settings → ℕ → Task → Dict
unfolding get_metadata
paused_state settings now task =
    entry "progress" (get_metadata "progress" (num (pos 0)) task.metadata) (
      entry "message" (get_metadata "progress_message" null task.metadata) (
        entry "resumable" (bool true) (
          entry "state_ttl_seconds" (num (pos settings.fleet_pause_ttl_seconds))
            (entry "expires_at" (stamp (now + settings.fleet_pause_ttl_seconds * second)) empty))))

unfoldable pub pause_event : Settings → Db → ℕ → Task → Task → String → Option String → TaskEvent
unfolding paused_state
pause_event settings db now old task paused_by reason = record {
  task_id = task.id;
  event_type = "pause_requested";
  event_data = some (
      entry "from_status" (str (value old.status)) (
        entry "to_status" (str "paused") (
          entry "reason" (optional_str reason) (
            entry "paused_by" (str paused_by)
              (entry "paused_state" (obj (paused_state settings now task)) empty)))));
  sequence = max_sequence task.id db.events + 1;
  created_at = now;
}

unfoldable pub pause_task :
    Settings → Ambient → Db → String → String → String → Option String → Outcome (Task × TaskEvent)
unfolding pause_event is_running
pause_task settings call db workflow_id task_id paused_by reason = settle do
  task ← fetch_permitted db workflow_id task_id paused_by
  require (is_running task.status) task_not_pausable
  moved ← or_state_error (transition_to call.now paused task) task_not_pausable
  let halted = record moved { paused_at = some call.now }
  let event = pause_event settings db call.now task halted paused_by reason
  ok (record {
    reply = ok (halted, event);
    work = record { updated = some halted; added = none; new_events = event ∷ [] };
  })
