-- ===== src/Lifecycle/Redirect.antt =====
-- `redirect_task` of lifecycle.py.
use fleet_api.Base.{
  ◌+◌, String, Bool, false, Option, none, some, Result, ok, ◌>>=◌, ◌>>◌, require, [], ◌∷◌, ltb,
  if◌then◌else◌,
}
use fleet_api.Errors.{
  ErrorCode, redirect_not_possible, retask_depth_exceeded, invalid_state_transition,
}
use fleet_api.Json.{Json, Dict, empty, entry, str, get, put, present}
use fleet_api.Task.Status.{redirected, value, is_in_flight}
use fleet_api.Task.Row.{Task, TaskEvent, transition_to}
use fleet_api.Settings.{Settings, Ambient}
use fleet_api.Store.{Db, Outcome, settle, max_sequence}
use fleet_api.Idempotency.{check_optional_key}
use fleet_api.Lifecycle.Access.{fetch_permitted, or_state_error}
use fleet_api.Lifecycle.Retask.{replay}
use fleet_api.Lifecycle.Successor.{Succession, resolve_priority, successor, successor_event}

-- `value = metadata.get(key)`, copied where it is not None
abbrev inherit : String → Option Json → Dict → Dict
inherit key value d = elim (present value) [ none ↦ d | some j ↦ put key j d ]

abbrev inherit_both : Option Dict → Dict → Dict
inherit_both none d = d
inherit_both (some m) d =
    inherit "progress_message" (get "progress_message" m) (inherit "progress" (get "progress" m) d)

unfoldable pub redirect_metadata : String → Bool → Task → Dict
unfolding get put
redirect_metadata reason inherit_progress task =
    let plain = entry "redirect_reason" (str reason) empty in
    if inherit_progress then inherit_both task.metadata plain else plain

unfoldable pub redirected_event : Ambient → Db → Task → String → String → TaskEvent
redirected_event call db task caller reason = record {
  task_id = task.id;
  event_type = "status";
  event_data = some (
      entry "from_status" (str (value task.status)) (
        entry "to_status" (str "redirected") (
          entry "reason" (str reason)
            (entry "redirect_id" (str call.new_id) (entry "redirected_by" (str caller) empty)))));
  sequence = max_sequence task.id db.events + 1;
  created_at = call.now;
}

unfoldable pub redirect_new :
    Ambient
    → Db
    → String
    → Task
    → String
    → String
    → Dict
    → Bool
    → Option String
    → Option String
    → Result ErrorCode (Outcome Succession)
unfolding redirect_metadata redirected_event resolve_priority successor successor_event
redirect_new call db workflow_id task caller reason new_input inherit_progress priority key = do
  moved ← or_state_error (transition_to call.now redirected task) invalid_state_transition
  resolved ← resolve_priority priority task
  let metadata = redirect_metadata reason inherit_progress task
  let new_task = successor call workflow_id task new_input resolved key metadata
  ok (record {
    reply = ok (record { new_task = new_task; original = moved; is_replay = false });
    work = record {
      updated = some moved;
      added = some new_task;
      new_events =
          successor_event call task "redirect_of"
          ∷ redirected_event call db task caller reason
          ∷ [];
    };
  })

module _ (digest : Dict → String) where
  unfoldable pub redirect_task :
      Settings
      → Ambient
      → Db
      → String
      → String
      → String
      → String
      → Dict
      → Bool
      → Option String
      → Option String
      → Outcome Succession
  unfolding redirect_new is_in_flight
  redirect_task settings call db workflow_id task_id caller reason new_input inherits priority key =
      settle do
        task ← fetch_permitted db workflow_id task_id caller
        require (is_in_flight task.status) redirect_not_possible
        require (ltb task.lineage_depth settings.fleet_lineage_max_depth) retask_depth_exceeded
        existing ← check_optional_key digest db key new_input
        elim existing [
          | some found ↦ ok (replay found task)
          | none ↦
              redirect_new call db workflow_id task caller reason new_input inherits priority key
        ]
