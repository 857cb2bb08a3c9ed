-- ===== src/Routes/Events.antt =====
-- The responses of `inject_context_endpoint` (built at the end of src/fleet_api/tasks/context.py) and of
-- `post_task_event` of src/fleet_api/tasks/routes.py.
use Prim.Native.String.{◌++◌}
use fleet_api.Base.{ℕ, String, true}
use fleet_api.Base.Int.{pos}
use fleet_api.Json.{empty, entry, bool, num, str, stamp, obj}
use fleet_api.Settings.{Ambient}
use fleet_api.Context.{Injection}
use fleet_api.Sidecar.{Receipt}
use fleet_api.Http.{Response, href}
use fleet_api.Routes.Blocks.{task_href, workflow_href}

unfoldable pub injection_response : Ambient → String → String → Injection → Response
injection_response call workflow_id task_id args = record {
  status_code = 202;
  content = entry "context_id" (str call.new_id) (
      entry "task_id" (str task_id) (
        entry "context_type" (str args.context_type) (
          entry "sequence" (num (pos args.sequence)) (
            entry "status" (str "accepted") (
              entry "accepted_at" (stamp call.now) (
                entry "_links"
                  (obj (
                    entry "task" (href (task_href workflow_id task_id)) (
                      entry "stream" (href (task_href workflow_id task_id ++ "/stream"))
                        (entry "workflow" (href (workflow_href workflow_id)) empty))))
                  empty))))));
}

-- `event_id` is the number that the database has given the new row
unfoldable pub event_response : ℕ → Receipt → Response
event_response event_id r = record {
  status_code = 201;
  content = entry "received" (bool true) (
      entry "event_id" (num (pos event_id)) (
        entry "task_id" (str r.task.id) (
          entry "event_type" (str r.event.event_type) (
            entry "sequence" (num (pos r.event.sequence)) (
              entry "created_at" (stamp r.event.created_at) (
                entry "_links"
                  (obj (
                    entry "task" (href (task_href r.task.workflow_id r.task.id))
                      (entry "events" (href ("/tasks/" ++ (r.task.id ++ "/events"))) empty)))
                  empty))))));
}
