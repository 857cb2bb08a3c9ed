-- ===== src/Routes/Run.antt =====
-- `run_task` of src/fleet_api/tasks/routes.py and `build_task_response` of tasks/crud.py.
use fleet_api.Base.{String, Bool, Option, none, some, if◌then◌else◌}
use fleet_api.Json.{Dict, empty, entry, str, stamp, obj, put, optional_str}
use fleet_api.Workflow.{Workflow}
use fleet_api.Task.Status.{value}
use fleet_api.Task.Row.{Task, priority_value}
use fleet_api.Links.{build_task_links}
use fleet_api.Crud.{NewTask, Dispatch}
use fleet_api.Http.{Response}
use fleet_api.Routes.Blocks.{or_key, idempotency_block, optional_count}

abbrev with_key : Option String → Bool → Task → Dict → Dict
with_key none is_replay task response = response
with_key (some key) is_replay task response =
    put "idempotency" (obj (idempotency_block key is_replay task)) response

unfoldable pub build_task_response : Task → Workflow → Bool → Option String → Dict
unfolding put value priority_value build_task_links
build_task_response task workflow is_replay idempotency_key =
    with_key (or_key idempotency_key task.idempotency_key) is_replay task (
      entry "task_id" (str task.id) (
        entry "workflow_id" (str task.workflow_id) (
          entry "status" (str (value task.status)) (
            entry "caller" (str task.principal_agent_id) (
              entry "executor" (optional_str task.executor_agent_id) (
                entry "input" (obj task.input) (
                  entry "priority" (str (priority_value task.priority)) (
                    entry "timeout_seconds" (optional_count task.timeout_seconds) (
                      entry "created_at" (stamp task.created_at) (
                        entry "estimated_duration_seconds"
                          (optional_count workflow.estimated_duration_seconds)
                          (entry "_links"
                            (obj (build_task_links task.id task.workflow_id task.status))
                            empty)))))))))))

-- the arguments with `idempotency_key or body.idempotency_key`, the header before the body
abbrev pub effective_args : Option String → NewTask → NewTask
effective_args header body = record body { idempotency_key = or_key header body.idempotency_key }

unfoldable pub run_response : Option String → Dispatch → Response
unfolding build_task_response
run_response key d = record {
  status_code = if d.is_replay then 200 else 202;
  content = build_task_response d.task d.workflow d.is_replay key;
}
