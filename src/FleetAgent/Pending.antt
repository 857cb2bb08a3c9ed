-- ===== src/FleetAgent/Pending.antt =====
-- What `TaskPoller.poll` of src/fleet_agent/poller.py reads from the server's response, and `PendingTask`
-- of src/fleet_agent/models.py. `as_int` is how pydantic reads an integer; `none` is an exception.
use fleet_api.Base.{ℕ, String, Option, none, some, List, [], ◌∷◌, ◌==◌, or_else, if◌then◌else◌}
use fleet_api.Base.Int.{ℤ}
use fleet_api.Json.{Json, Dict, Items, nil, cons, empty, null, str, stamp, arr, obj, get}

-- a time is the text that the server has printed
pub record PendingTask : Type 0 where
  pub task_id : String
  pub workflow_id : String
  pub input : Dict
  pub priority : String
  pub timeout_seconds : Option ℤ
  pub created_at : ℕ

infixl 5 ◌>>=◌
abbrev ◌>>=◌ : {A B : Type 0} → Option A → (A → Option B) → Option B
none >>= next = none
some a >>= next = next a

abbrev text_field : Option Json → Option String
text_field (some (str s)) = some s
text_field _ = none

abbrev time_field : Option Json → Option ℕ
time_field (some (stamp t)) = some t
time_field _ = none

abbrev dict_field : Option Json → Option Dict
dict_field (some (obj d)) = some d
dict_field _ = none

-- `data if isinstance(data, list) else data.get("tasks", data.get("data", []))`
unfoldable pub tasks_data : Json → Option Json
unfolding get
tasks_data (arr items) = some (arr items)
tasks_data (obj d) = some (or_else (get "tasks" d) (or_else (get "data" d) (arr nil)))
tasks_data _ = none

module _ (as_int : Json → Option ℤ) where
  -- `int | None = None`
  abbrev int_field : Option Json → Option (Option ℤ)
  int_field none = some none
  int_field (some null) = some none
  int_field (some j) = do n ← as_int j; some (some n)

  -- `PendingTask.model_validate`
  unfoldable pub model_validate : Json → Option PendingTask
  unfolding get
  model_validate (obj d) = do
    task_id ← text_field (get "task_id" d)
    workflow_id ← text_field (get "workflow_id" d)
    input ← dict_field (get "input" d)
    priority ← text_field (get "priority" d)
    timeout_seconds ← int_field (get "timeout_seconds" d)
    created_at ← time_field (get "created_at" d)
    some (record {
      task_id = task_id;
      workflow_id = workflow_id;
      input = input;
      priority = priority;
      timeout_seconds = timeout_seconds;
      created_at = created_at;
    })
  model_validate _ = none

  unfoldable pub validate_items : Items → Option (List PendingTask)
  unfolding model_validate
  validate_items nil = some []
  validate_items (cons j items) = do
    task ← model_validate j
    rest ← validate_items items
    some (task ∷ rest)

  -- the loop over what is no list: over the keys or the characters, none of which is a task
  unfoldable pub validate_tasks : Json → Option (List PendingTask)
  unfolding validate_items
  validate_tasks (arr items) = validate_items items
  validate_tasks (obj empty) = some []
  validate_tasks (str text) = if text == "" then some [] else none
  validate_tasks _ = none

  unfoldable pub poll : Json → Option (List PendingTask)
  unfolding tasks_data validate_tasks
  poll body = do found ← tasks_data body; validate_tasks found
