-- ===== src/FleetAgent/Executor.antt =====
-- src/fleet_agent/executor.py: the events of one execution, from what the handler's process writes.
use fleet_api.Base.{
  ℕ, zero, suc, ◌+◌, String, Bool, true, false, ◌&&◌, Option, none, some, List, [], ◌∷◌, ◌++◌,
  or_else, is_some, if◌then◌else◌,
}
use fleet_api.Base.Int.{ℤ, pos, negsuc}
use fleet_api.Json.{Json, Dict, null, num, str, obj, empty, entry, get, or_null}
use fleet_api.FleetAgent.State.{SignalState, get_redirect, is_cancelled, pop_context}

-- `TaskEvent` of models.py
pub record TaskEvent : Type 0 where
  pub event_type : String
  pub event_data : Option Dict
  pub sequence : ℕ

-- what `readline` brings, stripped: nothing more, an empty line, one that is no JSON, one that is, the
-- ValueError for a line over the reader's limit, or the TimeoutError of the whole execution
pub data Line : Type 0 where
  end_of_file blank not_json too_long timed_out : Line
  json : Json → Line

-- One pass of the loop: the shared state at the first checks; when the wait for a resume is over, the
-- state then and the line, or `none` where the time ran out during that wait.
pub record Turn : Type 0 where
  pub checked : SignalState
  pub resumed : Option (SignalState × Line)

-- how `_read_events` ends; `unfinished` is a process that is still going
pub data Ending : Type 0 where
  closed timeout_error cancelled_error redirected_error raised unfinished : Ending

-- `event_data.get("event_type", "log")`, as the model wants it
abbrev type_of : Option Json → Option String
type_of none = some "log"
type_of (some (str s)) = some s
type_of (some _) = none

abbrev data_of : Option Json → Option (Option Dict)
data_of none = some none
data_of (some null) = some none
data_of (some (obj d)) = some (some d)
data_of (some _) = none

-- the event of a line; `none` is an exception that nothing in the module catches: an AttributeError for
-- JSON that is no object, and a ValidationError for fields of other types
unfoldable pub line_event : ℕ → Json → Option TaskEvent
unfolding get
line_event sequence (obj d) = elim (type_of (get "event_type" d)) [
  | none ↦ none
  | some event_type ↦ elim (data_of (get "data" d)) [
    | none ↦ none
    | some event_data ↦
        some (record { event_type = event_type; event_data = event_data; sequence = sequence })
  ]
]
line_event sequence _ = none

unfoldable pub context_event : ℕ → Dict → TaskEvent
unfolding get
context_event sequence ctx = record {
  event_type = "context_injected";
  event_data = some (
      entry "context_type" (or_null (get "context_type" ctx)) (
        entry "context_sequence" (or_null (get "context_sequence" ctx)) (
          entry "payload" (or_null (get "payload" ctx))
            (entry "urgency" (or_else (get "urgency" ctx) (str "normal")) empty))));
  sequence = sequence;
}

-- `for ctx in contexts`, with the number after them
unfoldable pub context_events : ℕ → List Dict → List TaskEvent × ℕ
unfolding context_event
context_events sequence [] = ([], sequence)
context_events sequence (ctx ∷ contexts) =
    let (events, last) = context_events (sequence + 1) contexts in
    (context_event (sequence + 1) ctx ∷ events, last)

abbrev pub after_event :
    List TaskEvent → Option TaskEvent → List TaskEvent × Ending → List TaskEvent × Ending
after_event contexts none rest = (contexts, raised)
after_event contexts (some e) rest = (contexts ++ (e ∷ rest.0), rest.1)

-- The rest of a pass, after the events of the contexts. `n` is the number of the last event, and the
-- two last arguments are what comes after this line without an event of its own and with one.
unfoldable pub after_line :
    List TaskEvent
    → ℕ
    → Line
    → List TaskEvent × Ending
    → List TaskEvent × Ending
    → List TaskEvent × Ending
unfolding line_event
after_line contexts n end_of_file rest rest' = (contexts, closed)
after_line contexts n timed_out rest rest' = (contexts, timeout_error)
after_line contexts n too_long rest rest' = (contexts, raised)
after_line contexts n blank rest rest' = (contexts ++ rest.0, rest.1)
after_line contexts n not_json rest rest' = (contexts ++ rest.0, rest.1)
after_line contexts n (json j) rest rest' = after_event contexts (line_event (n + 1) j) rest'

-- The events and the way they end. `watching` is whether there is a signal poller and an identifier.
unfoldable pub read_events : Bool → String → List Turn → ℕ → List TaskEvent × Ending
unfolding get_redirect is_cancelled pop_context context_events after_line
read_events watching task_id [] sequence = ([], unfinished)
read_events watching task_id (turn ∷ turns) sequence =
    if watching && is_some (get_redirect task_id turn.checked)
    then ([], redirected_error)
    else if watching && is_cancelled task_id turn.checked
    then ([], cancelled_error)
    else elim (turn.resumed) [
      | none ↦ ([], timeout_error)
      | some (s, line) ↦
          let (contexts, n) =
            context_events sequence (if watching then (pop_context task_id s).0 else []) in
          let rest : List TaskEvent × Ending = read_events watching task_id turns n in
          let rest' : List TaskEvent × Ending = read_events watching task_id turns (n + 1) in
          after_line contexts n line rest rest'
    ]

-- What the operating system gives: `none` is the FileNotFoundError for the command, with its message.
pub record Process : Type 0 where
  pub turns : List Turn
  pub returncode : ℤ
  pub stderr : String

abbrev pub default_timeout : ℕ
default_timeout = 600

-- `task.timeout_seconds or _DEFAULT_TIMEOUT_SECONDS`
unfoldable pub timeout_of : Option ℕ → ℕ
timeout_of none = default_timeout
timeout_of (some zero) = default_timeout
timeout_of (some (suc n)) = suc n

-- how the generator ends
pub data Outcome : Type 0 where
  returned execution_error other_exception still_running : Outcome

-- the number of the last event
abbrev pub last_sequence : ℕ → List TaskEvent → ℕ
last_sequence n [] = n
last_sequence n (e ∷ es) = last_sequence e.sequence es

abbrev fails : Dict → ℕ → TaskEvent
fails event_data sequence = record {
  event_type = "failed";
  event_data = some event_data;
  sequence = sequence;
}

abbrev is_zero : ℤ → Bool
is_zero (pos zero) = true
is_zero (pos (suc _)) = false
is_zero (negsuc _) = false

-- `exceeded` is the text "Task exceeded {timeout}s timeout", and `not_found` that of the missing command.
module _ (exceeded : ℕ → String) (not_found : String) where
  -- the events after those of the process, for the number of the last one
  unfoldable pub closing_events : Option ℕ → Process → Ending → ℕ → List TaskEvent
  unfolding timeout_of
  closing_events timeout p closed n =
      if is_zero p.returncode
      then []
      else fails
          (entry "error" (str "SUBPROCESS_FAILED")
            (entry "exit_code" (num p.returncode) (entry "stderr" (str p.stderr) empty)))
          (n + 1)
        ∷ []
  closing_events timeout p timeout_error n =
      fails
        (entry "error" (str "EXECUTION_TIMEOUT") (
          entry "detail" (str (exceeded (timeout_of timeout)))
            (entry "stderr" (str p.stderr) empty)))
        (n + 1)
      ∷ []
  closing_events timeout p cancelled_error n =
      record {
        event_type = "status";
        event_data =
            some
              (entry "status" (str "cancelled") (entry "reason" (str "Cancelled by signal") empty));
        sequence = n + 1;
      }
      ∷ []
  closing_events timeout p redirected_error n = []
  closing_events timeout p raised n = []
  closing_events timeout p unfinished n = []

  abbrev outcome_of : Ending → Outcome
  outcome_of raised = other_exception
  outcome_of unfinished = still_running
  outcome_of closed = returned
  outcome_of timeout_error = returned
  outcome_of cancelled_error = returned
  outcome_of redirected_error = returned

  unfoldable pub execute : Bool → String → Option ℕ → Option Process → List TaskEvent × Outcome
  unfolding read_events closing_events
  execute watching task_id timeout none =
      (fails (entry "error" (str not_found) empty) 1 ∷ [], execution_error)
  execute watching task_id timeout (some p) =
      let (events, ending) = read_events watching task_id p.turns 0 in
      (events ++ closing_events timeout p ending (last_sequence 0 events), outcome_of ending)
