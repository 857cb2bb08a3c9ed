-- ===== src/Listing.antt =====
-- `get_task` and `list_tasks` of src/fleet_api/tasks/crud.py. `collates` is the database's order of
-- texts.
pub mod Order
pub mod Client
use fleet_api.Base.{
  ℕ, zero, suc, String, Bool, true, false, not, ◌&&◌, ◌||◌, Option, none, some, List, [], ◌∷◌,
  Result, ok, err, ◌>>=◌, ◌>>◌, or_raise, ltb, leb, ◌==◌, if◌then◌else◌, select,
}
use fleet_api.Errors.{Reply, ErrorCode, api, workflow_not_found, invalid_input}
use fleet_api.Workflow.{Workflow}
use fleet_api.Task.Status.{TaskStatus, value, parse}
use fleet_api.Task.Row.{Task, TaskPriority, priority_value, parse_priority}
use fleet_api.Store.{Db, find_task, find_workflow, lift}
use fleet_api.Lifecycle.Access.{in_workflow}
use fleet_api.Paging.{Page, get_page}
use fleet_api.Cursors.{Codec, TaskKey, encode_task_cursor, decode_task_cursor}

unfoldable pub get_task : Db → String → String → Reply Task
get_task db workflow_id task_id = do
  workflow ← or_raise (find_workflow workflow_id db) (api workflow_not_found)
  lift (in_workflow workflow_id (find_task task_id db))

-- the query parameters that select
pub record TaskFilter : Type 0 where
  pub status : Option String
  pub priority : Option String
  pub caller : Option String
  pub since : Option String
  pub until : Option String

-- an optional parameter, read by `read`, whose failure is INVALID_INPUT
abbrev pub read_optional : {A : Type 0} → (String → Option A) → Option String → Reply (Option A)
read_optional read none = ok none
read_optional read (some text) = do a ← or_raise (read text) (api invalid_input); ok (some a)

-- the parameters as they are compared with the columns
pub record TaskQuery : Type 0 where
  pub status : Option TaskStatus
  pub priority : Option TaskPriority
  pub caller : Option String
  pub since : Option ℕ
  pub until : Option ℕ

abbrev matches : {A B : Type 0} → (B → A → Bool) → Option A → B → Bool
matches test none b = true
matches test (some a) b = test b a

-- equality of enumeration members, by their values
abbrev is_same_status : TaskStatus → TaskStatus → Bool
is_same_status a b = value a == value b

abbrev is_same_priority : TaskPriority → TaskPriority → Bool
is_same_priority a b = priority_value a == priority_value b

-- the WHERE clauses
unfoldable pub is_listed : String → TaskQuery → Task → Bool
unfolding value priority_value
is_listed workflow_id q t =
    t.workflow_id == workflow_id
    && matches is_same_status q.status t.status
    && matches is_same_priority q.priority t.priority
    && matches (λ a b. a == b) q.caller t.principal_agent_id
    && matches (λ created since. leb since created) q.since t.created_at
    && matches (λ created until. leb created until) q.until t.created_at

abbrev pub key_of : Task → TaskKey
key_of t = record { created_at = t.created_at; id = t.id }

-- ORDER BY created_at DESC, id DESC, and `(created_at, id) < cursor`
abbrev pub is_newer : (String → String → Bool) → TaskKey → TaskKey → Bool
is_newer collates a b =
    ltb b.created_at a.created_at
    || leb a.created_at b.created_at && leb b.created_at a.created_at && collates b.id a.id

module _ (c : Codec) where
  open c use {Text, fromisoformat}

  pub record TaskPage : Type 0 where
    pub tasks : List Task
    pub next_cursor : Option Text
    pub has_more : Bool
    pub total_count : ℕ

  unfoldable pub resolve : TaskFilter → Reply TaskQuery
  resolve f = do
    status ← read_optional parse f.status
    priority ← read_optional parse_priority f.priority
    since ← read_optional fromisoformat f.since
    until ← read_optional fromisoformat f.until
    ok (record {
      status = status;
      priority = priority;
      caller = f.caller;
      since = since;
      until = until;
    })

  abbrev pub encoded : Option TaskKey → Option Text
  encoded none = none
  encoded (some k) = some (encode_task_cursor c k)

  abbrev pub page_of : Page Task TaskKey → TaskPage
  page_of p = record {
    tasks = p.items;
    next_cursor = encoded p.next_key;
    has_more = p.has_more;
    total_count = p.total_count;
  }

  abbrev pub read_cursor : Option Text → Reply (Option TaskKey)
  read_cursor none = ok none
  read_cursor (some text) = do k ← decode_task_cursor c text; ok (some k)

  module _ (collates : String → String → Bool) where
    unfoldable pub list_tasks : Db → String → TaskFilter → Option Text → ℕ → Reply TaskPage
    unfolding resolve is_listed get_page
    list_tasks db workflow_id filter cursor limit = do
      workflow ← or_raise (find_workflow workflow_id db) (api workflow_not_found)
      query ← resolve filter
      key ← read_cursor cursor
      let rows = select (is_listed workflow_id query) db.tasks
      ok (page_of (get_page key_of (is_newer collates) limit key rows))

    -- A client that follows the cursors, for `calls` calls at most.
    unfoldable pub follow :
        ℕ → Db → String → TaskFilter → Option Text → ℕ → Reply (List (List Task))
    follow zero db workflow_id filter cursor limit = ok []
    follow (suc calls) db workflow_id filter cursor limit = do
      page ← list_tasks db workflow_id filter cursor limit
      elim page.next_cursor [
        | none ↦ ok (page.tasks ∷ [])
        | some next ↦ do
          rest ← follow calls db workflow_id filter (some next) limit
          ok (page.tasks ∷ rest)
      ]
