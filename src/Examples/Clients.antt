-- ===== src/Examples/Clients.antt =====
-- Listings, cursors and workflows.
use Prim.Native.Nat.{zero}
use fleet_api.Base.{
  String, ◌≡◌, ◌≢◌, refl, ◌⊎◌, ◌↔◌, ◌++◌, none, some, List, [], ◌∷◌, ok, All, length, sort, map,
  select, arith, ◌≤◌, ℕ, eq_iff,
}
use fleet_api.Base.Chars.{codes, newline}
use fleet_api.Workflow.{Workflow, active}
use fleet_api.Task.Status.{accepted}
use fleet_api.Task.Row.{Task}
use fleet_api.Store.{Db, find_workflow, find, replace}
use fleet_api.Paging.{comes_first}
use fleet_api.Paging.Walk.{concat}
use fleet_api.Listing.{TaskFilter, TaskQuery, is_listed, key_of, is_newer, resolve, follow}
use fleet_api.Listing.Client.{list_tasks_complete}
use fleet_api.Workflows.{NewWorkflow, Changes, validate_workflow_id, update_workflow, changed}
use fleet_api.Workflows.{WorkflowFilter, with_status, is_listed as is_listed_workflow}
use fleet_api.Workflows.Client.{Row, id_of, follow as follow_workflows, list_workflows_complete}
use fleet_api.Workflows.Identifier.{IsIdentifier, validate_workflow_id_lem}
use fleet_api.Workflows.Ownership.{update_workflow-eq-ok}
use fleet_api.Examples.{row, stock, workflow}
use fleet_api.Examples.Collation.{codec, codec-IsCodec, collates, collates-IsOrder}

abbrev any_task : TaskFilter
any_task = record { status = none; priority = none; caller = none; since = none; until = none }

abbrev every_task : TaskQuery
every_task = record { status = none; priority = none; caller = none; since = none; until = none }

abbrev two_tasks : Db
two_tasks =
    stock
      (record (row accepted none none) { id = "t2"; created_at = 2 } ∷ row accepted none none ∷ [])
      []

abbrev older : String
older = "t1"

differs : older ≢ "t2"
differs h = ground (arith, eq_iff older "t2")

list_tasks_complete_example :
    (pages : List (List Task)) × (follow codec collates 3 two_tasks "wf" any_task none 1 ≡ ok pages)
    × (concat pages
        ≡ sort
            (comes_first key_of (is_newer collates))
            (select (is_listed "wf" every_task) two_tasks.tasks))
    × All (λ p. length p ≤ 1) pages
unfolding resolve find
list_tasks_complete_example =
    list_tasks_complete codec collates codec-IsCodec collates-IsOrder two_tasks
      ((differs, tt), (tt, tt)) "wf" workflow any_task every_task zero 3 refl refl (ground arith)

abbrev active_ones : WorkflowFilter
active_ones = record { status = none; owner = none; tag = none }

list_workflows_complete_example :
    (pages : List (List Row)) × (follow_workflows codec collates 2 (stock [] []) active_ones none 1
      ≡ ok pages)
    × (concat pages
        ≡ map (with_status (stock [] [])) (
            sort
              (comes_first id_of collates)
              (select (is_listed_workflow active active_ones) (workflow ∷ []))))
    × All (λ p. length p ≤ 1) pages
list_workflows_complete_example =
    list_workflows_complete codec collates codec-IsCodec collates-IsOrder (stock [] []) (tt, tt)
      active_ones active zero 2 refl (ground arith)

validate_workflow_id_lem_example : (validate_workflow_id "deploy-1" ≡ ok tt) ↔ (
    (body : List ℕ) × IsIdentifier body
    × ((codes "deploy-1" ≡ body) ⊎ (codes "deploy-1" ≡ body ++ newline ∷ [])))
validate_workflow_id_lem_example = validate_workflow_id_lem "deploy-1"

abbrev details : NewWorkflow
details = record {
  workflow_id = "deploy";
  owner_agent_id = "alice";
  name = "Deploy";
  description = none;
  tags = none;
  input_schema = none;
  output_schema = none;
  timeout_seconds = none;
  result_retention_days = 30;
}

abbrev bob : String
bob = "bob"

abbrev deploy : String
deploy = "deploy"

abbrev rename : Changes
rename = record {
  name = some (some "Deploy");
  description = none;
  tags = none;
  input_schema = none;
  output_schema = none;
  timeout_seconds = none;
  result_retention_days = none;
  status = none;
}

abbrev renamed : Workflow
renamed = changed 7 rename workflow.status workflow

abbrev renamed_db : Db
renamed_db = record (stock [] []) { workflows = renamed ∷ [] }

update_workflow-eq-ok_example :
    (w : Workflow) × (find_workflow "wf" (stock [] []) ≡ some w)
    × (find_workflow "wf" renamed_db ≡ some renamed)
    × (w.owner_agent_id ≡ "alice")
    × (renamed.id ≡ w.id)
    × (renamed.owner_agent_id ≡ w.owner_agent_id)
    × (renamed.created_at ≡ w.created_at)
    × (renamed.updated_at ≡ some 7)
    × ((deploy ≡ "wf") ⊎ (find_workflow deploy renamed_db ≡ find_workflow deploy (stock [] [])))
unfolding update_workflow changed find replace
update_workflow-eq-ok_example =
    update_workflow-eq-ok 7 "wf" "alice" deploy rename (stock [] []) renamed_db renamed refl
