-- ===== src/Task/Status.antt =====
-- src/fleet_api/tasks/state_machine.py: the states of a task and the transitions between them.
use fleet_api.Base.{
  String, Bool, true, false, not, Option, none, some, Result, ok, err, ◌==◌, if◌then◌else◌,
}

pub data TaskStatus : Type 0 where
  accepted running paused completed failed cancelled retasked redirected : TaskStatus

-- `status.value`
unfoldable pub value : TaskStatus → String
value accepted = "accepted"
value running = "running"
value paused = "paused"
value completed = "completed"
value failed = "failed"
value cancelled = "cancelled"
value retasked = "retasked"
value redirected = "redirected"

-- `TaskStatus(text)`; `none` is its ValueError
unfoldable pub parse : String → Option TaskStatus
parse text =
    if text == "accepted"
    then some accepted
    else if text == "running"
    then some running
    else if text == "paused"
    then some paused
    else if text == "completed"
    then some completed
    else if text == "failed"
    then some failed
    else if text == "cancelled"
    then some cancelled
    else if text == "retasked"
    then some retasked
    else if text == "redirected"
    then some redirected
    else none

-- membership in TERMINAL_STATES
unfoldable pub is_terminal : TaskStatus → Bool
is_terminal accepted = false
is_terminal running = false
is_terminal paused = false
is_terminal _ = true

-- `to in VALID_TRANSITIONS.get(from, set())`
unfoldable pub valid_transitions : TaskStatus → TaskStatus → Bool
valid_transitions accepted running = true
valid_transitions accepted cancelled = true
valid_transitions accepted failed = true
valid_transitions running completed = true
valid_transitions running failed = true
valid_transitions running paused = true
valid_transitions running cancelled = true
valid_transitions running redirected = true
valid_transitions paused running = true
valid_transitions paused cancelled = true
valid_transitions paused redirected = true
valid_transitions completed retasked = true
valid_transitions failed retasked = true
valid_transitions _ _ = false

pub record InvalidStateTransition : Type 0 where
  pub from_status : TaskStatus
  pub to_status : TaskStatus

unfoldable pub validate_transition :
    TaskStatus → TaskStatus → Result InvalidStateTransition (Unit {0})
validate_transition from_status to_status =
    if not (valid_transitions from_status to_status)
    then err (record { from_status = from_status; to_status = to_status })
    else ok tt

-- comparisons of a status with one state, or with two
unfoldable pub is_running : TaskStatus → Bool
is_running running = true
is_running _ = false

unfoldable pub is_paused : TaskStatus → Bool
is_paused paused = true
is_paused _ = false

unfoldable pub is_reviewable : TaskStatus → Bool
is_reviewable completed = true
is_reviewable failed = true
is_reviewable _ = false

unfoldable pub is_in_flight : TaskStatus → Bool
is_in_flight running = true
is_in_flight paused = true
is_in_flight _ = false

-- the states of a task that another task has taken over from
unfoldable pub is_superseded : TaskStatus → Bool
is_superseded retasked = true
is_superseded redirected = true
is_superseded _ = false
