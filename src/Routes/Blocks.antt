-- ===== src/Routes/Blocks.antt =====
-- Parts of the response bodies that the routes of src/fleet_api/tasks/routes.py share.
use Prim.Native.String.{◌++◌}
use fleet_api.Base.{
  ℕ, ◌+◌, ◌*◌, String, Bool, Option, none, some, List, [], ◌∷◌, ◌==◌, if◌then◌else◌,
}
use fleet_api.Base.Int.{pos, second}
use fleet_api.Errors.{Reply}
use fleet_api.Json.{
  Json, Dict, Items, nil, cons, empty, entry, null, num, str, stamp, arr, optional_str,
}
use fleet_api.Task.Row.{Task}
use fleet_api.Store.{Db}
use fleet_api.Http.{Response}

-- the reply made a response, over the database that the commit has left
abbrev pub answered : {A : Type 0} → Reply A × Db → (A → Db → Response) → Reply Response × Db
answered (fleet_api.Base.ok a, db) make = (fleet_api.Base.ok (make a db), db)
answered (fleet_api.Base.err e, db) make = (fleet_api.Base.err e, db)

-- `a or b` of two optional texts
abbrev pub or_key : Option String → Option String → Option String
or_key none b = b
or_key (some s) b = if s == "" then b else some s

abbrev pub idempotency_ttl_hours : ℕ
idempotency_ttl_hours = 24

abbrev pub expires_at : Task → ℕ
expires_at task = task.created_at + idempotency_ttl_hours * 3600 * second

abbrev pub idempotency_block : String → Bool → Task → Dict
idempotency_block key is_replay task = entry "key" (str key) (
    entry "status" (str (if is_replay then "replayed" else "created"))
      (entry "expires_at" (stamp (expires_at task)) empty))

abbrev pub texts : List String → Items
texts [] = nil
texts (s ∷ ss) = cons (str s) (texts ss)

abbrev pub lineage_block : Task → List String → Dict
lineage_block task chain = entry "depth" (num (pos task.lineage_depth)) (
    entry "root_task_id" (optional_str task.root_task_id) (entry "chain" (arr (texts chain)) empty))

abbrev pub optional_count : Option ℕ → Json
optional_count none = null
optional_count (some n) = num (pos n)

abbrev pub task_href : String → String → String
task_href workflow_id task_id = "/workflows/" ++ (workflow_id ++ ("/tasks/" ++ task_id))

abbrev pub workflow_href : String → String
workflow_href workflow_id = "/workflows/" ++ workflow_id
