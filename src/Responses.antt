-- ===== src/Responses.antt =====
-- src/fleet_api/tasks/responses.py: what the server tells about a task.
pub mod Fields
use Prim.Native.String.{◌++◌}
use fleet_api.Base.{
  ℕ, zero, suc, ◌-◌, ◌/◌, String, Bool, true, false, Option, none, some, leb, or_else,
  if◌then◌else◌, ◌==◌, ◌||◌, is_some, not,
}
use fleet_api.Base.Int.{ℤ, pos, negsuc}
use fleet_api.Json.{
  Json, Dict, Items, nil, null, bool, num, str, stamp, arr, obj, empty, entry, get, put,
  optional_str, or_null,
}
use fleet_api.Task.Status.{
  TaskStatus, accepted, running, paused, completed, failed, cancelled, retasked, redirected, value,
}
use fleet_api.Task.Row.{Task, priority_value}
use fleet_api.Links.{build_task_links}

-- a second in microseconds
abbrev pub microseconds : ℕ
microseconds = 1000000

abbrev pub negated : ℕ → ℤ
negated zero = pos 0
negated (suc n) = negsuc n

-- `int()` rounds towards zero
unfoldable pub compute_duration : Option ℕ → Option ℕ → Option ℤ
compute_duration none completed_at = none
compute_duration (some begun) none = none
compute_duration (some begun) (some ended) = some (
    if leb begun ended
    then pos ((ended - begun) / microseconds)
    else negated ((begun - ended) / microseconds))

abbrev pub optional_num : Option ℤ → Json
optional_num none = null
optional_num (some n) = num n

abbrev pub optional_stamp : Option ℕ → Json
optional_stamp none = null
optional_stamp (some t) = stamp t

-- `task.metadata_.get(key, default) if task.metadata_ else default`
abbrev from_metadata : String → Json → Option Dict → Json
from_metadata key default none = default
from_metadata key default (some d) = or_else (get key d) default

-- `if time is not None: response[key] = time.isoformat()`
abbrev put_time : String → Option ℕ → Dict → Dict
put_time key none response = response
put_time key (some t) response = put key (stamp t) response

abbrev all_true : Dict
all_true =
    entry "input_valid" (bool true)
      (entry "execution_clean" (bool true) (entry "result_complete" (bool true) empty))

abbrev put_end : Task → Dict → Dict
put_end t response =
    put "duration_seconds" (optional_num (compute_duration t.started_at t.completed_at))
      (put "completed_at" (optional_stamp t.completed_at) response)

abbrev put_outcome : Task → Dict → Dict
put_outcome t response =
    put "warnings" (from_metadata "warnings" (arr nil) t.metadata) (put "result" t.result response)

-- the part of the response that depends on the status
unfoldable pub status_fields : Task → TaskStatus → Dict → Dict
unfolding put get compute_duration
status_fields t running response =
    put "estimated_completion" (from_metadata "estimated_completion" null t.metadata)
      (put "progress" (from_metadata "progress" (num (pos 0)) t.metadata) response)
status_fields t completed response =
    put_end t
      (put "quality" (from_metadata "quality" (obj all_true) t.metadata) (put_outcome t response))
status_fields t failed response = put_end t (put_outcome t response)
status_fields t cancelled response = put_time "completed_at" t.completed_at response
status_fields t redirected response = put_time "completed_at" t.completed_at response
status_fields t retasked response = put_time "completed_at" t.completed_at response
status_fields t accepted response = response
status_fields t paused response = response

unfoldable pub task_to_detail_response : Task → Dict
unfolding put priority_value value status_fields build_task_links
task_to_detail_response t = put "_links" (obj (build_task_links t.id t.workflow_id t.status)) (
    status_fields t t.status (
      put_time "started_at" t.started_at (
        entry "task_id" (str t.id) (
          entry "workflow_id" (str t.workflow_id) (
            entry "status" (str (value t.status)) (
              entry "caller" (str t.principal_agent_id) (
                entry "executor" (optional_str t.executor_agent_id) (
                  entry "priority" (str (priority_value t.priority)) (
                    entry "input" (obj t.input)
                      (entry "created_at" (stamp t.created_at) empty))))))))))

abbrev is_completed : TaskStatus → Bool
is_completed completed = true
is_completed _ = false

abbrev summary_links : Task → Dict
summary_links t =
    let base = "/workflows/" ++ (t.workflow_id ++ ("/tasks/" ++ t.id)) in
    entry "self" (obj (entry "href" (str base) empty))
      (entry "stream" (obj (entry "href" (str (base ++ "/stream")) empty)) empty)

unfoldable pub task_to_summary_response : Task → Dict
unfolding put value compute_duration
task_to_summary_response t =
    let response = put_time "completed_at" t.completed_at (
      entry "task_id" (str t.id) (
        entry "status" (str (value t.status)) (
          entry "caller" (str t.principal_agent_id)
            (entry "created_at" (stamp t.created_at) empty)))) in
    put "_links" (obj (summary_links t)) (
      if is_completed t.status
      then put "duration_seconds" (optional_num (compute_duration t.started_at t.completed_at))
          response
      else response)
