-- ===== src/Links.antt =====
-- The links of src/fleet_api/tasks/responses.py, which tell a client what it may do with a task.
pub mod Offers
use Prim.Native.String.{◌++◌}
use fleet_api.Base.{String, Bool, List, [], ◌∷◌, Option, none, some, ◌==◌, is_some, if◌then◌else◌}
use fleet_api.Json.{Json, Dict, empty, entry, str, obj, get, put}
use fleet_api.Task.Status.{
  TaskStatus, accepted, running, paused, completed, failed, cancelled, retasked, redirected,
}

-- the table _STATUS_ACTION_LINKS
unfoldable pub status_action_links : TaskStatus → List String
status_action_links accepted = "cancel" ∷ []
status_action_links running = "cancel" ∷ "pause" ∷ "context" ∷ "redirect" ∷ []
status_action_links paused = "resume" ∷ "cancel" ∷ "context" ∷ "redirect" ∷ []
status_action_links completed = "retask" ∷ "rerun" ∷ []
status_action_links failed = "retask" ∷ "rerun" ∷ []
status_action_links cancelled = "rerun" ∷ []
status_action_links retasked = []
status_action_links redirected = []

-- the table _ACTION_LINK_SUFFIX: each action's name after a slash
unfoldable pub action_link_suffix : String → String
action_link_suffix action = "/" ++ action

abbrev task_base : String → String → String
task_base workflow_id task_id = "/workflows/" ++ workflow_id ++ "/tasks/" ++ task_id

abbrev pub href : String → Dict
href path = entry "href" (str path) empty

abbrev pub post_href : String → Dict
post_href path = entry "method" (str "POST") (href path)

-- the round of the loop over the actions
unfoldable pub action_link : String → String → String → Json
unfolding action_link_suffix
action_link task_id workflow_id action =
    if action == "rerun"
    then obj (post_href ("/workflows/" ++ workflow_id ++ "/run"))
    else obj (post_href (task_base workflow_id task_id ++ action_link_suffix action))

unfoldable pub add_links : String → String → List String → Dict → Dict
unfolding action_link put
add_links task_id workflow_id [] links = links
add_links task_id workflow_id (a ∷ actions) links =
    add_links task_id workflow_id actions (put a (action_link task_id workflow_id a) links)

unfoldable pub build_task_links : String → String → TaskStatus → Dict
unfolding add_links status_action_links
build_task_links task_id workflow_id status =
    add_links task_id workflow_id (status_action_links status) (
      entry "self" (obj (href (task_base workflow_id task_id))) (
        entry "workflow" (obj (href ("/workflows/" ++ workflow_id)))
          (entry "stream" (obj (href (task_base workflow_id task_id ++ "/stream"))) empty)))
