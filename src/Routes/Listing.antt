-- ===== src/Routes/Listing.antt =====
-- `get_task` and `list_tasks` of src/fleet_api/tasks/routes.py. `print` is the text of a cursor.
use Prim.Native.String.{◌++◌}
use fleet_api.Base.{
  ℕ, String, Bool, Option, none, some, List, [], ◌∷◌, ok, ◌>>=◌, ◌==◌, if◌then◌else◌,
}
use fleet_api.Base.Decimal.{decimal}
use fleet_api.Base.Int.{pos}
use fleet_api.Errors.{Reply}
use fleet_api.Json.{Dict, Items, nil, cons, empty, entry, bool, num, arr, obj, put, optional_str}
use fleet_api.Responses.{task_to_detail_response, task_to_summary_response}
use fleet_api.Task.Row.{Task}
use fleet_api.Store.{Db}
use fleet_api.Cursors.{Codec}
use fleet_api.Listing.{TaskFilter, TaskPage, get_task, list_tasks}
use fleet_api.Http.{Response, href}
use fleet_api.Routes.Blocks.{workflow_href}

unfoldable pub task_response : Db → String → String → Reply Response
unfolding get_task task_to_detail_response
task_response db workflow_id task_id = do
  task ← get_task db workflow_id task_id
  ok (record { status_code = 200; content = task_to_detail_response task })

-- `if value is not None: params.append(f"{name}={value}")`
abbrev param : String → Option String → List String → List String
param name none params = params
param name (some v) params = (name ++ ("=" ++ v)) ∷ params

-- `separator.join(texts)`
unfoldable pub join : String → List String → String
join separator [] = ""
join separator (s ∷ []) = s
join separator (s ∷ t ∷ ss) = s ++ (separator ++ join separator (t ∷ ss))

unfoldable pub query_params : TaskFilter → ℕ → List String
unfolding decimal
query_params f limit = param "status" f.status (
    param "priority" f.priority (
      param "caller" f.caller
        (param "since" f.since (param "until" f.until (("limit=" ++ decimal limit) ∷ [])))))

unfoldable pub summaries : List Task → Items
unfolding task_to_summary_response
summaries [] = nil
summaries (t ∷ tasks) = cons (obj (task_to_summary_response t)) (summaries tasks)

abbrev tasks_href : String → String
tasks_href workflow_id = "/workflows/" ++ (workflow_id ++ "/tasks")

-- `if next_cursor`
abbrev pub with_next : Option String → String → ℕ → Dict → Dict
with_next none path limit links = links
with_next (some cursor) path limit links =
    if cursor == ""
    then links
    else put "next" (href (path ++ ("?cursor=" ++ (cursor ++ ("&limit=" ++ decimal limit))))) links

abbrev pub pagination : Option String → Bool → ℕ → ℕ → Dict
pagination next_cursor has_more total_count limit = entry "next_cursor" (optional_str next_cursor) (
    entry "has_more" (bool has_more)
      (entry "total_count" (num (pos total_count)) (entry "limit" (num (pos limit)) empty)))

module _ (c : Codec) (print : c.Text → String) where
  open c use {Text}

  abbrev pub printed : Option Text → Option String
  printed none = none
  printed (some t) = some (print t)

  unfoldable pub page_body : String → TaskFilter → ℕ → TaskPage c → Dict
  unfolding query_params summaries join put decimal
  page_body workflow_id f limit page = entry "data" (arr (summaries page.tasks)) (
      entry "pagination"
        (obj (pagination (printed page.next_cursor) page.has_more page.total_count limit))
        (entry "_links"
          (obj (
            with_next (printed page.next_cursor) (tasks_href workflow_id) limit (
              entry "self"
                (href (tasks_href workflow_id ++ ("?" ++ join "&" (query_params f limit))))
                (entry "workflow" (href (workflow_href workflow_id)) empty))))
          empty))

  unfoldable pub listing_response :
      (String → String → Bool) → Db → String → TaskFilter → Option Text → ℕ → Reply Response
  unfolding page_body
  listing_response collates db workflow_id f cursor limit = do
    page ← list_tasks c collates db workflow_id f cursor limit
    ok (record { status_code = 200; content = page_body workflow_id f limit page })
