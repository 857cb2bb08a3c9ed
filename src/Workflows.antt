-- ===== src/Workflows.antt =====
-- `WorkflowService` of src/fleet_api/workflows/service.py. `collates` is the database's order of texts.
pub mod Identifier
pub mod Ownership
pub mod Client
pub mod Responses
use fleet_api.Base.{
  ℕ, zero, suc, String, Bool, true, false, not, ◌&&◌, ◌||◌, Option, none, some, List, [], ◌∷◌,
  Result, ok, err, ◌>>=◌, ◌>>◌, require, or_raise, is_some, length, leb, ◌==◌, if◌then◌else◌, any,
  select, map,
}
use fleet_api.Base.Chars.{codes, is_alphanumeric, is_id_char, before_end, all_chars}
use fleet_api.Errors.{
  ErrorCode, Reply, api, integrity, invalid_input, workflow_exists, workflow_not_found,
  not_authorized,
}
use fleet_api.Json.{Json, Dict, get}
use fleet_api.Agent.{Agent, AgentStatus}
use fleet_api.Workflow.{Workflow, WorkflowStatus, active, deprecated}
use fleet_api.Store.{Db, find_agent, find_workflow, replace, lift}
use fleet_api.Paging.{Page, get_page}
use fleet_api.Cursors.{Codec, encode_cursor, decode_cursor}

abbrev id_body : List ℕ → Bool
id_body [] = false
id_body (c ∷ cs) = is_alphanumeric c && all_chars is_id_char cs && leb (length cs) 127

-- `WORKFLOW_ID_PATTERN.match(workflow_id)`
unfoldable pub is_id_match : List ℕ → Bool
unfolding all_chars before_end
is_id_match cs = id_body (before_end cs)

unfoldable pub validate_workflow_id : String → Result ErrorCode (Unit {0})
unfolding is_id_match
validate_workflow_id workflow_id = do
  require (not (workflow_id == "")) invalid_input
  require (is_id_match (codes workflow_id)) invalid_input

unfoldable pub validate_json_schema_field : Option Dict → Result ErrorCode (Unit {0})
unfolding get
validate_json_schema_field none = ok tt
validate_json_schema_field (some schema) = require (is_some (get "type" schema)) invalid_input

-- the arguments of `create_workflow`
pub record NewWorkflow : Type 0 where
  pub workflow_id : String
  pub owner_agent_id : String
  pub name : String
  pub description : Option String
  pub tags : Option (List String)
  pub input_schema : Option Dict
  pub output_schema : Option Dict
  pub timeout_seconds : Option ℕ
  pub result_retention_days : ℕ

unfoldable pub new_workflow : ℕ → NewWorkflow → Workflow
new_workflow now args = record {
  id = args.workflow_id;
  name = args.name;
  owner_agent_id = args.owner_agent_id;
  description = args.description;
  input_schema = args.input_schema;
  output_schema = args.output_schema;
  estimated_duration_seconds = none;
  timeout_seconds = args.timeout_seconds;
  result_retention_days = args.result_retention_days;
  status = active;
  tags = args.tags;
  created_at = now;
  updated_at = none;
}

-- the commit of the new row: its owner is a foreign key
abbrev insert_workflow : Workflow → Db → Reply (Workflow × Db)
insert_workflow w db =
    if is_some (find_agent w.owner_agent_id db)
    then ok (w, record db { workflows = w ∷ db.workflows })
    else err integrity

-- the workflow and the database after the call
unfoldable pub create_workflow : ℕ → NewWorkflow → Db → Reply (Workflow × Db)
unfolding new_workflow
create_workflow now args db = do
  lift (validate_workflow_id args.workflow_id)
  lift (validate_json_schema_field args.input_schema)
  lift (validate_json_schema_field args.output_schema)
  elim (find_workflow args.workflow_id db) [
    | some existing ↦
        if not (existing.owner_agent_id == args.owner_agent_id)
        then err (api workflow_exists)
        else ok (existing, db)
    | none ↦ insert_workflow (new_workflow now args) db
  ]

unfoldable pub get_workflow : Db → String → Reply Workflow
get_workflow db workflow_id = or_raise (find_workflow workflow_id db) (api workflow_not_found)

-- the outer join with the owner's row
abbrev pub status_of : Option Agent → Option AgentStatus
status_of none = none
status_of (some a) = some a.status

abbrev pub with_status : Db → Workflow → Workflow × Option AgentStatus
with_status db w = (w, status_of (find_agent w.owner_agent_id db))

unfoldable pub get_workflow_with_executor_status :
    Db → String → Reply (Workflow × Option AgentStatus)
get_workflow_with_executor_status db workflow_id = do
  w ← or_raise (find_workflow workflow_id db) (api workflow_not_found)
  ok (with_status db w)

unfoldable pub parse_status : String → Option WorkflowStatus
parse_status text =
    if text == "active" then some active else if text == "deprecated" then some deprecated else none

-- The fields of an update: `none` is a field that the request does not have, and `some none` one that
-- it sets to null.
pub record Changes : Type 0 where
  pub name : Option (Option String)
  pub description : Option (Option String)
  pub tags : Option (Option (List String))
  pub input_schema : Option (Option Dict)
  pub output_schema : Option (Option Dict)
  pub timeout_seconds : Option (Option ℕ)
  pub result_retention_days : Option (Option ℕ)
  pub status : Option (Option String)

-- `if provided: column = value`, and where a null is passed over
abbrev pub assign : {A : Type 0} → Option A → A → A
assign none old = old
assign (some new) old = new

abbrev pub assign_present : {A : Type 0} → Option (Option A) → A → A
assign_present (some (some new)) old = new
assign_present _ old = old

abbrev check_schema : Option (Option Dict) → Result ErrorCode (Unit {0})
check_schema none = ok tt
check_schema (some schema) = validate_json_schema_field schema

abbrev new_status : Option (Option String) → WorkflowStatus → Result ErrorCode WorkflowStatus
new_status (some (some text)) old = or_raise (parse_status text) invalid_input
new_status _ old = ok old

unfoldable pub changed : ℕ → Changes → WorkflowStatus → Workflow → Workflow
changed now ch status w = record w {
  name = assign_present ch.name w.name;
  description = assign ch.description w.description;
  tags = assign ch.tags w.tags;
  input_schema = assign ch.input_schema w.input_schema;
  output_schema = assign ch.output_schema w.output_schema;
  timeout_seconds = assign ch.timeout_seconds w.timeout_seconds;
  result_retention_days = assign_present ch.result_retention_days w.result_retention_days;
  status = status;
  updated_at = some now;
}

unfoldable pub update_workflow :
    ℕ → String → String → Changes → Db → Result ErrorCode (Workflow × Db)
unfolding changed parse_status
update_workflow now workflow_id caller ch db = do
  w ← or_raise (find_workflow workflow_id db) workflow_not_found
  require (w.owner_agent_id == caller) not_authorized
  check_schema ch.input_schema
  check_schema ch.output_schema
  status ← new_status ch.status w.status
  let w' = changed now ch status w
  ok (w', record db { workflows = replace (λ (x : Workflow). x.id) w' db.workflows })

-- the query parameters of the listing
pub record WorkflowFilter : Type 0 where
  pub status : Option String
  pub owner : Option String
  pub tag : Option String

unfoldable pub is_deprecated : WorkflowStatus → Bool
is_deprecated active = false
is_deprecated deprecated = true

abbrev is_same_status : WorkflowStatus → WorkflowStatus → Bool
is_same_status a b = if is_deprecated a then is_deprecated b else not (is_deprecated b)

abbrev has_owner : Option String → Workflow → Bool
has_owner none w = true
has_owner (some owner) w = w.owner_agent_id == owner

-- `tags @> [tag]`, which a NULL does not satisfy
abbrev has_tag : Option String → Option (List String) → Bool
has_tag none tags = true
has_tag (some tag) none = false
has_tag (some tag) (some tags) = any (λ t. t == tag) tags

unfoldable pub is_listed : WorkflowStatus → WorkflowFilter → Workflow → Bool
unfolding is_deprecated any
is_listed status f w = is_same_status w.status status && has_owner f.owner w && has_tag f.tag w.tags

abbrev pub status_filter : Option String → Reply WorkflowStatus
status_filter none = ok active
status_filter (some text) = or_raise (parse_status text) (api invalid_input)

module _ (c : Codec) where
  open c use {Text}

  pub record WorkflowPage : Type 0 where
    pub items : List (Workflow × Option AgentStatus)
    pub next_cursor : Option Text
    pub has_more : Bool
    pub total_count : ℕ

  abbrev pub encoded : Option String → Option Text
  encoded none = none
  encoded (some k) = some (encode_cursor c k)

  abbrev pub read_cursor : Option Text → Reply (Option String)
  read_cursor none = ok none
  read_cursor (some text) = do k ← decode_cursor c text; ok (some k)

  unfoldable pub list_workflows :
      (String → String → Bool) → Db → WorkflowFilter → Option Text → ℕ → Reply WorkflowPage
  unfolding parse_status is_listed get_page
  list_workflows collates db filter cursor limit = do
    status ← status_filter filter.status
    key ← read_cursor cursor
    let rows = select (is_listed status filter) db.workflows
    let page = get_page (λ (w : Workflow). w.id) collates limit key rows
    ok (record {
      items = map (with_status db) page.items;
      next_cursor = encoded page.next_key;
      has_more = page.has_more;
      total_count = page.total_count;
    })
