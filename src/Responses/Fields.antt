-- ===== src/Responses/Fields.antt =====
-- Which fields a task's responses have.
use fleet_api.Base.{String, ◌≡◌, Bool, true, false, ◌&&◌, ◌||◌, some, is_some, arith}
use fleet_api.Json.{Dict, obj, get, put}
use fleet_api.Task.Status.{TaskStatus, completed, failed, is_terminal, is_running}
use fleet_api.Task.Row.{Task}
use fleet_api.Links.{build_task_links}
use fleet_api.Responses.{status_fields, task_to_detail_response}

abbrev pub has : String → Dict → Bool
has key d = is_some (get key d)

abbrev pub has_result : TaskStatus → Bool
has_result completed = true
has_result failed = true
has_result _ = false

-- The detail response of every task has the links of its status; it has the progress exactly while the
-- task runs, the result and the duration exactly when it is completed or has failed, and the time of
-- completion exactly then or where a cancelled, retasked or redirected task has one.
pub task_to_detail_response-fields :
    (t : Task)
    → (get "_links" (task_to_detail_response t)
        ≡ some (obj (build_task_links t.id t.workflow_id t.status)))
      × (has "progress" (task_to_detail_response t) ≡ is_running t.status)
      × (has "result" (task_to_detail_response t) ≡ has_result t.status)
      × (has "duration_seconds" (task_to_detail_response t) ≡ has_result t.status)
      × (has "completed_at" (task_to_detail_response t)
          ≡ (has_result t.status || is_terminal t.status && is_some t.completed_at))
unfolding task_to_detail_response status_fields get put is_running is_terminal
task_to_detail_response-fields t =
    (ground arith, ground arith, ground arith, ground arith, ground arith)
