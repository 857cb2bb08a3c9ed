-- ===== src/EventStream.antt =====
-- src/fleet_api/tasks/sse.py: the stream of a task's events.
pub mod Order
pub mod Complete
pub mod Served
use fleet_api.Base.{
  ℕ, zero, suc, ◌+◌, String, Bool, true, false, not, ◌||◌, Option, none, some, List, [], ◌∷◌, ◌++◌,
  ◌==◌, or_else, ltb, leb, is_some, if◌then◌else◌, select, sort, Result, ok, err,
}
use Prim.Native.String.{◌++◌ as ◌⧺◌}
use fleet_api.Json.{Json, Dict, null, bool, num, real, stamp, str, arr, obj, empty, entry, get}
use fleet_api.Errors.{Reply, Failure, api, workflow_not_found, task_not_found}
use fleet_api.Task.Status.{TaskStatus, parse, is_terminal}
use fleet_api.Task.Row.{Task, TaskEvent}
use fleet_api.Store.{Db, find_task, find_workflow}
use fleet_api.Paging.{is_after}

-- The order of the numbers. Rows with the same number keep the table's order.
abbrev pub is_earlier : TaskEvent → TaskEvent → Bool
is_earlier a b = leb a.sequence b.sequence

-- the task's events, in the order of their numbers
unfoldable pub task_log : String → Db → List TaskEvent
task_log task_id db = sort is_earlier (select (λ (e : TaskEvent). e.task_id == task_id) db.events)

abbrev pub sequence_of : TaskEvent → ℕ
sequence_of e = e.sequence

unfoldable pub fetch_events_after : String → ℕ → Db → List TaskEvent
unfolding task_log
fetch_events_after task_id after_sequence db =
    select (is_after sequence_of ltb (some after_sequence)) (task_log task_id db)

-- what the stream yields, before it is written as text
pub data Message : Type 0 where
  sent : TaskEvent → Message
  heartbeat : ℕ → Message

-- `str_int` is Python's `str` of an integer, and `dumps` its `json.dumps`.
module _ (str_int : ℕ → String) (dumps : Dict → String) where
  unfoldable pub format_sse_event : String → Dict → ℕ → String
  format_sse_event event_type event_data sequence =
      "id: "
      ⧺ (str_int sequence
          ⧺ ("\nevent: " ⧺ (event_type ⧺ ("\ndata: " ⧺ (dumps event_data ⧺ "\n\n")))))

  unfoldable pub text_of : Message → String
  unfolding format_sse_event
  text_of (sent e) = format_sse_event e.event_type (or_else e.event_data empty) e.sequence
  text_of (heartbeat n) = format_sse_event "heartbeat" (entry "type" (str "keepalive") empty) n

-- what an event that was sent means for the stream; a list or dictionary as the status is a TypeError
pub data Check : Type 0 where
  goes_on stops breaks : Check

abbrev names_terminal : Option TaskStatus → Check
names_terminal none = goes_on
names_terminal (some s) = if is_terminal s then stops else goes_on

-- `status_value in _TERMINAL_STATUS_VALUES`
abbrev status_check : Option Json → Check
status_check none = goes_on
status_check (some (str s)) = names_terminal (parse s)
status_check (some (arr _)) = breaks
status_check (some (obj _)) = breaks
status_check (some _) = goes_on

unfoldable pub check_event : TaskEvent → Check
unfolding get parse is_terminal
check_event e =
    if e.event_type == "completed" || e.event_type == "failed"
    then stops
    else if e.event_type == "status"
    then status_check (get "status" (or_else e.event_data empty))
    else goes_on

-- `for event in events`: the messages, `last_sent_sequence`, and whether the stream goes on
unfoldable pub send_events : ℕ → List TaskEvent → List Message × ℕ × Check
unfolding check_event
send_events last [] = ([], last, goes_on)
send_events last (e ∷ events) =
    let (messages, last', check) = send_events e.sequence events in
    elim (check_event e) [
      | goes_on ↦ (sent e ∷ messages, last', check)
      | stops ↦ (sent e ∷ [], e.sequence, stops)
      | breaks ↦ (sent e ∷ [], e.sequence, breaks)
    ]

-- the current status: a task that is gone is a NotFoundError
unfoldable pub check_task : String → Db → Check
unfolding is_terminal
check_task task_id db = elim (find_task task_id db) [
  | none ↦ breaks
  | some t ↦ if is_terminal t.status then stops else goes_on
]

-- A poll that finds no event looks at the task's status.
abbrev pub poll_check : String → Db → List TaskEvent → Check → Check
poll_check task_id db [] check = check_task task_id db
poll_check task_id db (_ ∷ _) check = check

-- the seconds since the last event, after a poll
abbrev pub idle_after : ℕ → List TaskEvent → ℕ
idle_after idle [] = idle + 1
idle_after idle (_ ∷ _) = 0

-- what is yielded in a round, and what comes after it unless the stream ends
abbrev pub go_on : Check → List Message → List Message × Check → List Message × Check
go_on stops messages later = (messages, stops)
go_on breaks messages later = (messages, breaks)
go_on goes_on messages later = (messages ++ later.0, later.1)

-- the heartbeat after `interval` seconds without an event
abbrev pub keep_alive : Bool → ℕ → List Message × Check → List Message × Check
keep_alive idle_long last later = (if idle_long then heartbeat last ∷ later.0 else later.0, later.1)

-- Phase 2: what the polls find, a second apart. The result is what is yielded, and `goes_on` where the
-- stream waits for the next poll.
unfoldable pub poll_events : String → ℕ → ℕ → ℕ → List Db → List Message × Check
unfolding fetch_events_after send_events check_task
poll_events task_id interval last idle [] = ([], goes_on)
poll_events task_id interval last idle (db ∷ dbs) =
    let events = fetch_events_after task_id last db in
    let (messages, last', check) = send_events last events in
    let idle' = idle_after idle events in
    let idle_long = leb interval idle' in
    let later = poll_events task_id interval last' (if idle_long then 0 else idle') dbs in
    go_on (poll_check task_id db events check) messages (keep_alive idle_long last' later)

-- `_event_stream`: the replay from the first database, then the polls
unfoldable pub event_stream : String → ℕ → ℕ → Db → List Db → List Message × Check
unfolding fetch_events_after send_events check_task poll_events
event_stream task_id last_event_id interval db dbs =
    let (messages, last, check) =
      send_events last_event_id (fetch_events_after task_id last_event_id db) in
    let later = poll_events task_id interval last 0 dbs in
    go_on check messages (go_on (check_task task_id db) [] later)

-- The endpoint, up to the response: what the stream starts from.
unfoldable pub stream_task_events : String → String → Option ℕ → Db → Reply ℕ
stream_task_events workflow_id task_id last_event_id db = elim (find_workflow workflow_id db) [
  | none ↦ err (api workflow_not_found)
  | some w ↦ elim (find_task task_id db) [
    | none ↦ err (api task_not_found)
    | some t ↦
        if not (t.workflow_id == workflow_id)
        then err (api task_not_found)
        else ok (or_else last_event_id 0)
  ]
]
