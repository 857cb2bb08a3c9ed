-- ===== src/Workflows/Responses.antt =====
-- The endpoints of src/fleet_api/workflows/routes.py behind the authentication.
use Prim.Native.String.{◌++◌}
use fleet_api.Base.{ℕ, String, Bool, Option, none, some, List, [], ◌∷◌, ok, ◌>>=◌}
use fleet_api.Base.Decimal.{decimal}
use fleet_api.Base.Int.{pos}
use fleet_api.Errors.{Reply}
use fleet_api.Json.{
  Json, Dict, Items, nil, cons, empty, entry, null, num, str, stamp, arr, obj, put, optional_str,
}
use fleet_api.Responses.{optional_stamp}
use fleet_api.Agent.{AgentStatus}
use fleet_api.Workflow.{Workflow, WorkflowStatus, active, deprecated}
use fleet_api.Store.{Db, lift}
use fleet_api.Cursors.{Codec}
use fleet_api.Workflows.{
  NewWorkflow, create_workflow, get_workflow_with_executor_status, Changes, update_workflow,
  WorkflowFilter, WorkflowPage, list_workflows,
}
use fleet_api.Http.{Response, href}
use fleet_api.Routes.{texts, optional_count}
use fleet_api.Routes.Listing.{with_next, pagination, printed}
use fleet_api.Agents.Responses.{status_value}

unfoldable pub workflow_status_value : WorkflowStatus → String
workflow_status_value active = "active"
workflow_status_value deprecated = "deprecated"

abbrev optional_dict : Option Dict → Json
optional_dict none = null
optional_dict (some d) = obj d

abbrev optional_tags : Option (List String) → Json
optional_tags none = null
optional_tags (some tags) = arr (texts tags)

abbrev with_method : String → String → Json
with_method path method = obj (entry "href" (str path) (entry "method" (str method) empty))

unfoldable pub links_of : Workflow → Dict
links_of w =
    let base = "/workflows/" ++ w.id in
    entry "self" (href base) (
      entry "run" (with_method (base ++ "/run") "POST") (
        entry "tasks" (href (base ++ "/tasks")) (
          entry "update" (with_method base "PUT")
            (entry "owner" (href ("/agents/" ++ w.owner_agent_id)) empty))))

-- `_workflow_to_response`
unfoldable pub workflow_to_response : Workflow → Option String → Dict
unfolding workflow_status_value links_of
workflow_to_response w executor_status = entry "id" (str w.id) (
    entry "name" (str w.name) (
      entry "owner" (str w.owner_agent_id) (
        entry "description" (optional_str w.description) (
          entry "tags" (optional_tags w.tags) (
            entry "input_schema" (optional_dict w.input_schema) (
              entry "output_schema" (optional_dict w.output_schema) (
                entry "timeout_seconds" (optional_count w.timeout_seconds) (
                  entry "result_retention_days" (num (pos w.result_retention_days)) (
                    entry "status" (str (workflow_status_value w.status)) (
                      entry "executor_status" (optional_str executor_status) (
                        entry "created_at" (stamp w.created_at) (
                          entry "updated_at" (optional_stamp w.updated_at)
                            (entry "_links" (obj (links_of w)) empty)))))))))))))

abbrev pub status_text : Option AgentStatus → Option String
status_text none = none
status_text (some s) = some (status_value s)

unfoldable pub onboarding : Workflow → Items
onboarding w =
    cons
      (obj (
        entry "step" (num (pos 1)) (
          entry "action" (str "Verify your workflow is listed") (
            entry "method" (str "GET") (
              entry "endpoint" (str ("/workflows/" ++ w.id))
                (entry "expected_status" (num (pos 200)) empty))))))
      (cons
        (obj (
          entry "step" (num (pos 2)) (
            entry "action" (str "Run a test invocation") (
              entry "method" (str "POST") (
                entry "endpoint" (str ("/workflows/" ++ (w.id ++ "/run"))) (
                  entry "headers"
                    (obj (entry "Authorization" (str "Signature <agent_id>:<signature>") empty))
                    (entry "expected_status" (num (pos 202)) empty)))))))
        nil)

unfoldable pub create_response : ℕ → NewWorkflow → Db → Reply (Response × Db)
unfolding create_workflow workflow_to_response onboarding put
create_response now args db = do
  done ← create_workflow now args db
  ok (
    record {
      status_code = 201;
      content = put "onboarding" (arr (onboarding done.0)) (workflow_to_response done.0 none);
    },
    done.1,
  )

unfoldable pub workflow_response : Db → String → Reply Response
unfolding get_workflow_with_executor_status workflow_to_response status_value
workflow_response db workflow_id = do
  found ← get_workflow_with_executor_status db workflow_id
  ok (record { status_code = 200; content = workflow_to_response found.0 (status_text found.1) })

unfoldable pub update_response : ℕ → String → String → Changes → Db → Reply (Response × Db)
unfolding update_workflow workflow_to_response
update_response now workflow_id caller ch db = do
  done ← lift (update_workflow now workflow_id caller ch db)
  ok (record { status_code = 200; content = workflow_to_response done.0 none }, done.1)

unfoldable pub bodies : List (Workflow × Option AgentStatus) → Items
unfolding workflow_to_response status_value
bodies [] = nil
bodies ((w, s) ∷ items) = cons (obj (workflow_to_response w (status_text s))) (bodies items)

-- `_workflow_links`
unfoldable pub workflow_links : Dict
workflow_links =
    entry "self" (href "/workflows") (entry "register" (with_method "/workflows" "POST") empty)

module _ (c : Codec) (print : c.Text → String) where
  open c use {Text}

  unfoldable pub listing_body : ℕ → WorkflowPage c → Dict
  unfolding bodies workflow_links put decimal
  listing_body limit page = entry "data" (arr (bodies page.items)) (
      entry "pagination"
        (obj (pagination (printed c print page.next_cursor) page.has_more page.total_count limit))
        (entry "_links"
          (obj (with_next (printed c print page.next_cursor) "/workflows" limit workflow_links))
          empty))

  unfoldable pub list_response :
      (String → String → Bool) → Db → WorkflowFilter → Option Text → ℕ → Reply Response
  unfolding listing_body
  list_response collates db filter cursor limit = do
    page ← list_workflows c collates db filter cursor limit
    ok (record { status_code = 200; content = listing_body limit page })
