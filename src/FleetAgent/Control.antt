-- ===== src/FleetAgent/Control.antt =====
-- src/fleet_agent/signals.py: the handlers of the signals, and one pass of the loop of `run`. The
-- types of the signals are those that `Signals` validates.
use fleet_api.Base.{
  String, Bool, true, false, not, Option, none, some, List, [], ◌∷◌, ◌++◌, ◌==◌, or_else,
  if◌then◌else◌, ℕ, ◌*◌, ltb, min,
}
use Prim.Native.String.{◌++◌ as ◌⧺◌}
use fleet_api.Json.{Dict, empty, entry, str, obj}
use fleet_api.FleetAgent.State.{
  set_item, SignalState, has_task, set_cancel, set_redirect, is_signal_processed,
  mark_signal_processed,
}

-- `Signal` of models.py
pub record Signal : Type 0 where
  pub task_id : String
  pub signal_type : String
  pub timestamp : String
  pub payload : Option Dict

-- an acknowledgement: the event of type "status" that is streamed for the task
pub record Ack : Type 0 where
  pub task_id : String
  pub event_data : Dict

abbrev pub acknowledge : String → String → Ack
acknowledge task_id status = record {
  task_id = task_id;
  event_data = entry "status" (str status) empty;
}

-- Whether a post succeeds does not matter to the handlers: `_post_ack` catches what it raises.
abbrev pub Handled : Type 0
Handled = SignalState × List Ack

-- `ev.set()` and `ev.clear()`
abbrev set_event : String → Bool → SignalState → SignalState
set_event t running s = record s { pause_events = set_item t running s.pause_events }

unfoldable pub handle_pause : String → SignalState → Handled
handle_pause t s = elim (s.pause_events t) [
  | none ↦ (s, [])
  | some running ↦
      if not running then (s, []) else (set_event t false s, acknowledge t "paused" ∷ [])
]

unfoldable pub handle_resume : String → SignalState → Handled
handle_resume t s = elim (s.pause_events t) [
  | none ↦ (s, [])
  | some running ↦ if running then (s, []) else (set_event t true s, acknowledge t "running" ∷ [])
]

-- `if ev is not None and not ev.is_set(): ev.set()`
abbrev pub wake : String → SignalState → SignalState
wake t s = elim (s.pause_events t) [
  | none ↦ s
  | some running ↦ if not running then set_event t true s else s
]

unfoldable pub handle_cancel : String → SignalState → Handled
unfolding set_cancel
handle_cancel t s = (wake t (set_cancel t s), acknowledge t "cancelled" ∷ [])

unfoldable pub handle_redirect : String → Dict → SignalState → Handled
unfolding set_cancel set_redirect
handle_redirect t payload s = (
  wake t (set_cancel t (set_redirect t payload s)),
  record {
    task_id = t;
    event_data = entry "status" (str "redirected") (entry "redirect" (obj payload) empty);
  }
      ∷ [],
)

unfoldable pub handle_context_injection : String → Dict → SignalState → SignalState
handle_context_injection t payload s = elim (s.context_queue t) [
  | none ↦ s
  | some queue ↦ record s { context_queue = set_item t (queue ++ (payload ∷ [])) s.context_queue }
]

unfoldable pub handle_signal : Signal → SignalState → Handled
unfolding handle_pause handle_resume handle_cancel handle_redirect handle_context_injection has_task
handle_signal sig s =
    if not (has_task sig.task_id s)
    then (s, [])
    else if sig.signal_type == "pause_requested"
    then handle_pause sig.task_id s
    else if sig.signal_type == "resume_requested"
    then handle_resume sig.task_id s
    else if sig.signal_type == "cancel_requested"
    then handle_cancel sig.task_id s
    else if sig.signal_type == "redirect_requested"
    then handle_redirect sig.task_id (or_else sig.payload empty) s
    else if sig.signal_type == "context_injection"
    then (handle_context_injection sig.task_id (or_else sig.payload empty) s, [])
    else (s, [])

-- `f"{sig.task_id}:{sig.signal_type}:{sig.timestamp}"`
unfoldable pub signal_key : Signal → String
signal_key sig = sig.task_id ⧺ (":" ⧺ (sig.signal_type ⧺ (":" ⧺ sig.timestamp)))

unfoldable pub process_signal : Signal → SignalState → Handled
unfolding handle_signal signal_key is_signal_processed mark_signal_processed
process_signal sig s =
    if not (is_signal_processed (signal_key sig) s)
    then (let (after, acks) = handle_signal sig s in
        (mark_signal_processed (signal_key sig) after, acks))
    else (s, [])

-- `for sig in sigs`
unfoldable pub process_signals : List Signal → SignalState → Handled
unfolding process_signal
process_signals [] s = (s, [])
process_signals (sig ∷ sigs) s =
    let (after, acks) = process_signal sig s in
    let (last, rest) = process_signals sigs after in (last, acks ++ rest)

-- seconds
abbrev pub base_backoff : ℕ
base_backoff = 2

abbrev pub max_backoff : ℕ
max_backoff = 30

-- the backoff after a poll
unfoldable pub next_backoff : Bool → ℕ → ℕ
next_backoff connected backoff = if connected then base_backoff else min (backoff * 2) max_backoff

-- how long `run` sleeps
unfoldable pub pause_length : ℕ → ℕ → ℕ
pause_length interval backoff = if ltb base_backoff backoff then backoff else interval
