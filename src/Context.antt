-- ===== src/Context.antt =====
-- src/fleet_api/tasks/context.py: context that the principal adds to a task in flight.
use fleet_api.Base.{
  ℕ, suc, ◌+◌, String, Bool, false, Option, none, some, ok, ◌>>=◌, ◌>>◌, require, or_raise, not,
  List, [], ◌∷◌, ◌&&◌, ◌==◌, leb, if◌then◌else◌,
}
use fleet_api.Base.Int.{ℤ, pos, negsuc}
use fleet_api.Errors.{context_rejected, api, uncaught}
use fleet_api.Json.{Json, Dict, empty, entry, num, str, obj, get}
use fleet_api.Task.Status.{is_in_flight}
use fleet_api.Task.Row.{Task, TaskEvent}
use fleet_api.Settings.{Ambient}
use fleet_api.Store.{Db, Outcome, settle_any, lift, max_sequence}
use fleet_api.Lifecycle.Access.{fetch_permitted}

abbrev pub is_context_event : String → TaskEvent → Bool
is_context_event task_id e = e.task_id == task_id && e.event_type == "context_injected"

unfoldable pub count_context_injections : String → List TaskEvent → ℕ
count_context_injections task_id [] = 0
count_context_injections task_id (e ∷ es) =
    let rest = count_context_injections task_id es in
    if is_context_event task_id e then suc rest else rest

-- `ORDER BY created_at DESC LIMIT 1`; of two events at the same time, the later row
unfoldable pub latest_context : String → List TaskEvent → Option TaskEvent
latest_context task_id [] = none
latest_context task_id (e ∷ es) =
    let rest = latest_context task_id es in
    if is_context_event task_id e
    then elim rest [
      | none ↦ some e
      | some r ↦ if leb r.created_at e.created_at then some e else some r
    ]
    else rest

-- An injection, and what `inject_context` takes beside it.
pub record Injection : Type 0 where
  pub context_type : String
  pub payload : Dict
  pub sequence : ℕ
  pub urgency : String

unfoldable pub context_event : Ambient → Db → Task → String → Injection → TaskEvent
context_event call db task caller args = record {
  task_id = task.id;
  event_type = "context_injected";
  event_data = some (
      entry "context_id" (str call.new_id) (
        entry "context_type" (str args.context_type) (
          entry "context_sequence" (num (pos args.sequence)) (
            entry "payload" (obj args.payload)
              (entry "urgency" (str args.urgency) (entry "injected_by" (str caller) empty))))));
  sequence = max_sequence task.id db.events + 1;
  created_at = call.now;
}

-- `sequence <= last`
abbrev pub is_at_most : ℕ → ℤ → Bool
is_at_most n (pos m) = leb n m
is_at_most n (negsuc m) = false

-- `int_of` is Python's `int` on a JSON value that is no integer; `none` is its exception.
module _ (int_of : Json → Option ℤ) where
  abbrev pub read_int : Option Json → Option ℤ
  read_int none = some (pos 0)
  read_int (some (num n)) = some n
  read_int (some j) = int_of j

  abbrev pub read_sequence : Option TaskEvent → Option ℤ
  read_sequence none = some (pos 0)
  read_sequence (some e) = elim e.event_data [
    | none ↦ some (pos 0)
    | some d ↦ read_int (get "context_sequence" d)
  ]

  unfoldable pub get_max_context_sequence : String → List TaskEvent → Option ℤ
  get_max_context_sequence task_id events = read_sequence (latest_context task_id events)

  unfoldable pub inject_context :
      Ambient → Db → String → String → String → Injection → Outcome TaskEvent
  unfolding context_event is_in_flight get_max_context_sequence
  inject_context call db workflow_id task_id caller args = settle_any do
    task ← lift (fetch_permitted db workflow_id task_id caller)
    require (is_in_flight task.status) (api context_rejected)
    last ← or_raise (get_max_context_sequence task_id db.events) uncaught
    require (not (is_at_most args.sequence last)) (api context_rejected)
    let event = context_event call db task caller args
    ok (record {
      reply = ok event;
      work = record { updated = none; added = none; new_events = event ∷ [] };
    })
