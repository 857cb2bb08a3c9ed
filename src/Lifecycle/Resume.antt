-- ===== src/Lifecycle/Resume.antt =====
-- `resume_task` of lifecycle.py.
use fleet_api.Base.{
  ℕ, ◌+◌, ◌*◌, String, Bool, false, Option, none, some, Result, ok, err, ◌>>=◌, ◌>>◌, require,
  or_raise, [], ◌∷◌, ltb, if◌then◌else◌,
}
use fleet_api.Base.Int.{ℤ, pos, second, whole_seconds}
use fleet_api.Errors.{ErrorCode, task_not_paused, pause_timeout, invalid_input, api}
use fleet_api.Json.{empty, entry, num, str}
use fleet_api.Task.Status.{cancelled, running, value, is_paused}
use fleet_api.Task.Row.{Task, TaskEvent, transition_to, parse_priority, priority_value}
use fleet_api.Settings.{Settings, Ambient}
use fleet_api.Store.{Db, Outcome, settle, max_sequence}
use fleet_api.Lifecycle.Access.{fetch_permitted, or_state_error}

-- `(now - paused_at).total_seconds() > ttl`
abbrev pub is_expired : Settings → ℕ → Option ℕ → Bool
is_expired settings now none = false
is_expired settings now (some t) = ltb (t + settings.fleet_pause_ttl_seconds * second) now

-- `int((now - paused_at).total_seconds()) if paused_at else 0`
abbrev pub paused_duration : ℕ → Option ℕ → ℤ
paused_duration now none = pos 0
paused_duration now (some t) = whole_seconds now t

abbrev timeout_event : Db → ℕ → Task → TaskEvent
timeout_event db now task = record {
  task_id = task.id;
  event_type = "status";
  event_data = some (
      entry "from_status" (str "paused") (
        entry "to_status" (str "cancelled") (
          entry "reason" (str "PAUSE_TIMEOUT")
            (entry "paused_duration_seconds" (num (paused_duration now task.paused_at)) empty))));
  sequence = max_sequence task.id db.events + 1;
  created_at = now;
}

-- `except InvalidStateTransition: pass`
abbrev pub or_unchanged : {E A : Type 0} → Result E A → A → A
or_unchanged (ok a) old = a
or_unchanged (err _) old = old

-- The cancellation is committed, and then PAUSE_TIMEOUT is raised.
unfoldable pub auto_cancel : {A : Type 0} → Db → ℕ → Task → Outcome A
auto_cancel db now task = record {
  reply = err (api pause_timeout);
  work = record {
    updated = some (or_unchanged (transition_to now cancelled task) task);
    added = none;
    new_events = timeout_event db now task ∷ [];
  };
}

-- the optional override of the priority
unfoldable pub with_priority : Option String → Task → Result ErrorCode Task
with_priority none task = ok task
with_priority (some text) task = do
  priority ← or_raise (parse_priority text) invalid_input
  ok (record task { priority = priority })

unfoldable pub resume_event : Db → ℕ → Task → Task → String → TaskEvent
resume_event db now old task resumed_by = record {
  task_id = task.id;
  event_type = "resume_requested";
  event_data = some (
      entry "from_status" (str (value old.status)) (
        entry "to_status" (str "running") (
          entry "resumed_by" (str resumed_by) (
            entry "paused_duration_seconds" (num (paused_duration now old.paused_at))
              (entry "priority" (str (priority_value task.priority)) empty)))));
  sequence = max_sequence task.id db.events + 1;
  created_at = now;
}

unfoldable pub continue_task :
    Ambient → Db → Task → String → Option String → Result ErrorCode (Outcome (Task × TaskEvent))
unfolding with_priority resume_event
continue_task call db task resumed_by priority = do
  moved ← or_state_error (transition_to call.now running task) task_not_paused
  resumed ← with_priority priority (record moved { paused_at = none })
  let event = resume_event db call.now task resumed resumed_by
  ok (record {
    reply = ok (resumed, event);
    work = record { updated = some resumed; added = none; new_events = event ∷ [] };
  })

unfoldable pub resume_task :
    Settings → Ambient → Db → String → String → String → Option String → Outcome (Task × TaskEvent)
unfolding auto_cancel continue_task is_paused
resume_task settings call db workflow_id task_id resumed_by priority = settle do
  task ← fetch_permitted db workflow_id task_id resumed_by
  require (is_paused task.status) task_not_paused
  if is_expired settings call.now task.paused_at
      then ok (auto_cancel db call.now task)
      else continue_task call db task resumed_by priority
