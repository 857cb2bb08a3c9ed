-- ===== src/Routes/Succession.antt =====
-- The responses of `retask_task_endpoint` and `redirect_task_endpoint` of src/fleet_api/tasks/routes.py.
-- The lineage is read after the commit.
use fleet_api.Base.{String, Bool, true, false, Option, none, some, if◌then◌else◌}
use fleet_api.Base.Int.{pos}
use fleet_api.Json.{Json, Dict, empty, entry, null, bool, num, str, stamp, obj, put, optional_str}
use fleet_api.Task.Status.{value}
use fleet_api.Task.Row.{priority_value}
use fleet_api.Links.{build_task_links}
use fleet_api.Store.{Db}
use fleet_api.Context.{count_context_injections}
use fleet_api.Lifecycle.Lineage.{build_lineage_chain}
use fleet_api.Lifecycle.Successor.{Succession}
use fleet_api.Http.{Response, href}
use fleet_api.Routes.Blocks.{idempotency_block, lineage_block, task_href}

-- `if idempotency_key is not None`
abbrev with_key : Option String → Succession → Dict → Dict
with_key none s response = response
with_key (some key) s response =
    put "idempotency" (obj (idempotency_block key s.is_replay s.new_task)) response

-- `original_task.result is not None`
abbrev has_value : Json → Bool
has_value null = false
has_value _ = true

abbrev links_with : String → String → Succession → Dict
links_with name workflow_id s =
    put name (href (task_href workflow_id s.original.id))
      (build_task_links s.new_task.id workflow_id s.new_task.status)

unfoldable pub retask_body : String → Db → Succession → Dict
unfolding value priority_value build_task_links put build_lineage_chain count_context_injections
retask_body workflow_id db s =
    let t = s.new_task in
    entry "task_id" (str t.id) (
      entry "parent_task_id" (optional_str t.parent_task_id) (
        entry "workflow_id" (str t.workflow_id) (
          entry "status" (str (value t.status)) (
            entry "caller" (str t.principal_agent_id) (
              entry "executor" (optional_str t.executor_agent_id) (
                entry "priority" (str (priority_value t.priority)) (
                  entry "created_at" (stamp t.created_at) (
                    entry "lineage" (obj (lineage_block t (build_lineage_chain db t))) (
                      entry "inherited_context"
                        (obj (
                          entry "original_input" (bool true) (
                            entry "original_result" (bool (has_value s.original.result)) (
                              entry "injected_contexts"
                                (num (pos (count_context_injections s.original.id db.events)))
                                empty))))
                        (entry "_links" (obj (links_with "parent" workflow_id s)) empty))))))))))

unfoldable pub redirect_body : String → Db → Succession → Dict
unfolding value priority_value build_task_links put build_lineage_chain
redirect_body workflow_id db s =
    let t = s.new_task in
    entry "task_id" (str t.id) (
      entry "workflow_id" (str t.workflow_id) (
        entry "status" (str (value t.status)) (
          entry "redirected_from" (str s.original.id) (
            entry "lineage" (obj (lineage_block t (build_lineage_chain db t))) (
              entry "caller" (str t.principal_agent_id) (
                entry "executor" (optional_str t.executor_agent_id) (
                  entry "priority" (str (priority_value t.priority)) (
                    entry "created_at" (stamp t.created_at) (
                      entry "_links" (obj (links_with "redirected_from" workflow_id s))
                        empty)))))))))

unfoldable pub retask_response : String → Option String → Succession → Db → Response
unfolding retask_body put
retask_response workflow_id key s db = record {
  status_code = if s.is_replay then 200 else 201;
  content = with_key key s (retask_body workflow_id db s);
}

unfoldable pub redirect_response : String → Option String → Succession → Db → Response
unfolding redirect_body put
redirect_response workflow_id key s db = record {
  status_code = if s.is_replay then 200 else 201;
  content = with_key key s (redirect_body workflow_id db s);
}
