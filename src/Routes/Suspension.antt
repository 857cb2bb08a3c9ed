-- ===== src/Routes/Suspension.antt =====
-- The responses of the endpoints of src/fleet_api/tasks/routes.py that cancel, pause and resume.
use fleet_api.Base.{ℕ, ◌+◌, ◌*◌, String, true, Option, none, some, or_else}
use fleet_api.Base.Int.{pos, second}
use fleet_api.Json.{Json, Dict, empty, entry, null, bool, num, str, stamp, obj, get, optional_str}
use fleet_api.Settings.{Settings}
use fleet_api.Task.Status.{value}
use fleet_api.Task.Row.{Task, TaskEvent, priority_value}
use fleet_api.Links.{build_task_links, href, post_href}
use fleet_api.Responses.{optional_stamp}
use fleet_api.Lifecycle.Pause.{get_metadata}
use fleet_api.Http.{Response}
use fleet_api.Routes.Blocks.{task_href, workflow_href}
use Prim.Native.String.{◌++◌}

unfoldable pub build_cancel_links : String → String → Dict
build_cancel_links task_id workflow_id = entry "self" (obj (href (task_href workflow_id task_id))) (
    entry "workflow" (obj (href (workflow_href workflow_id)))
      (entry "rerun" (obj (post_href (workflow_href workflow_id ++ "/run"))) empty))

unfoldable pub cancel_body : Task → String → Option String → Dict
unfolding value priority_value build_cancel_links
cancel_body task cancelled_by reason = entry "task_id" (str task.id) (
    entry "workflow_id" (str task.workflow_id) (
      entry "caller" (str task.principal_agent_id) (
        entry "executor" (optional_str task.executor_agent_id) (
          entry "status" (str (value task.status)) (
            entry "input" (obj task.input) (
              entry "result" task.result (
                entry "priority" (str (priority_value task.priority)) (
                  entry "created_at" (stamp task.created_at) (
                    entry "completed_at" (optional_stamp task.completed_at) (
                      entry "cancelled_at" (optional_stamp task.completed_at) (
                        entry "cancelled_by" (str cancelled_by) (
                          entry "reason" (optional_str reason) (
                            entry "_links" (obj (build_cancel_links task.id task.workflow_id))
                              empty)))))))))))))

unfoldable pub cancel_response : String → Option String → Task → Response
unfolding cancel_body
cancel_response cancelled_by reason task = record {
  status_code = 200;
  content = cancel_body task cancelled_by reason;
}

-- `paused_at + timedelta(seconds=pause_ttl) if paused_at else None`
abbrev pub pause_expiry : ℕ → Option ℕ → Option ℕ
pause_expiry ttl none = none
pause_expiry ttl (some t) = some (t + ttl * second)

unfoldable pub pause_state : Settings → Task → Dict
unfolding get_metadata
pause_state settings task = entry "progress" (get_metadata "progress" (num (pos 0)) task.metadata) (
    entry "message" (get_metadata "progress_message" null task.metadata) (
      entry "resumable" (bool true) (
        entry "state_ttl_seconds" (num (pos settings.fleet_pause_ttl_seconds)) (
          entry "expires_at"
            (optional_stamp (pause_expiry settings.fleet_pause_ttl_seconds task.paused_at))
            empty))))

-- `_pause_response`
unfoldable pub pause_response : Settings → Task → Response
unfolding value build_task_links pause_state
pause_response settings task = record {
  status_code = 200;
  content = entry "task_id" (str task.id) (
      entry "workflow_id" (str task.workflow_id) (
        entry "status" (str (value task.status)) (
          entry "paused_at" (optional_stamp task.paused_at) (
            entry "paused_state" (obj (pause_state settings task)) (
              entry "_links" (obj (build_task_links task.id task.workflow_id task.status))
                empty)))));
}

-- `event.data.get("paused_duration_seconds", 0) if event.data else 0`
abbrev duration_of : Option Dict → Json
duration_of none = num (pos 0)
duration_of (some d) = or_else (get "paused_duration_seconds" d) (num (pos 0))

-- `_resume_response`
unfoldable pub resume_response : Task → TaskEvent → Response
unfolding value build_task_links get get_metadata
resume_response task event = record {
  status_code = 200;
  content = entry "task_id" (str task.id) (
      entry "workflow_id" (str task.workflow_id) (
        entry "status" (str (value task.status)) (
          entry "resumed_at" (stamp event.created_at) (
            entry "paused_duration_seconds" (duration_of event.event_data) (
              entry "progress" (get_metadata "progress" (num (pos 0)) task.metadata) (
                entry "_links" (obj (build_task_links task.id task.workflow_id task.status))
                  empty))))));
}
