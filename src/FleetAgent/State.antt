-- ===== src/FleetAgent/State.antt =====
-- src/fleet_agent/signal_state.py: what the signal poller writes and the executor reads.
use fleet_api.Base.{
  String, Bool, true, false, not, ◌&&◌, Option, none, some, List, [], ◌∷◌, ◌==◌, is_some, or_else,
  if◌then◌else◌,
}
use Prim.Native.String.{◌++◌}
use fleet_api.Base.Texts.{drop_prefix}
use fleet_api.Json.{Dict}

-- a Python dictionary with texts as keys
abbrev pub Mapping : Type 0 → Type 0
Mapping A = String → Option A

-- `m[key] = value`
unfoldable pub set_item : {A : Type 0} → String → A → Mapping A → Mapping A
set_item key value m k = if k == key then some value else m k

-- `m.pop(key, None)`
unfoldable pub pop_item : {A : Type 0} → String → Mapping A → Mapping A
pop_item key m k = if k == key then none else m k

-- An `asyncio.Event` is `true` while it is set, which is while the task is not paused.
pub record SignalState : Type 0 where
  pub pause_events : Mapping Bool
  pub cancel_flags : Mapping Bool
  pub redirect_payloads : Mapping Dict
  pub context_queue : Mapping (List Dict)
  pub processed_signals : String → Bool

unfoldable pub initial_state : SignalState
initial_state = record {
  pause_events = λ _. none;
  cancel_flags = λ _. none;
  redirect_payloads = λ _. none;
  context_queue = λ _. none;
  processed_signals = λ _. false;
}

unfoldable pub register_task : String → SignalState → SignalState
register_task task_id s = record s {
  pause_events = set_item task_id true s.pause_events;
  cancel_flags = set_item task_id false s.cancel_flags;
  redirect_payloads = pop_item task_id s.redirect_payloads;
  context_queue = set_item task_id [] s.context_queue;
}

-- `key.startswith(f"{task_id}:")`
abbrev pub is_key_of : String → String → Bool
is_key_of task_id key = is_some (drop_prefix (task_id ++ ":") key)

unfoldable pub unregister_task : String → SignalState → SignalState
unregister_task task_id s = record s {
  pause_events = pop_item task_id s.pause_events;
  cancel_flags = pop_item task_id s.cancel_flags;
  redirect_payloads = pop_item task_id s.redirect_payloads;
  context_queue = pop_item task_id s.context_queue;
  processed_signals = λ key. s.processed_signals key && not (is_key_of task_id key);
}

unfoldable pub is_paused : String → SignalState → Bool
is_paused task_id s = elim (s.pause_events task_id) [ none ↦ false | some running ↦ not running ]

unfoldable pub is_cancelled : String → SignalState → Bool
is_cancelled task_id s = or_else (s.cancel_flags task_id) false

unfoldable pub get_redirect : String → SignalState → Option Dict
get_redirect task_id s = s.redirect_payloads task_id

-- the contexts, and the state that is left
unfoldable pub pop_context : String → SignalState → List Dict × SignalState
pop_context task_id s = elim (s.context_queue task_id) [
  | none ↦ ([], s)
  | some [] ↦ ([], s)
  | some (x ∷ contexts) ↦
      (x ∷ contexts, record s { context_queue = set_item task_id [] s.context_queue })
]

unfoldable pub has_task : String → SignalState → Bool
has_task task_id s = is_some (s.pause_events task_id)

unfoldable pub set_cancel : String → SignalState → SignalState
set_cancel task_id s = record s { cancel_flags = set_item task_id true s.cancel_flags }

unfoldable pub set_redirect : String → Dict → SignalState → SignalState
set_redirect task_id payload s = record s {
  redirect_payloads = set_item task_id payload s.redirect_payloads;
}

unfoldable pub is_signal_processed : String → SignalState → Bool
is_signal_processed key s = s.processed_signals key

unfoldable pub mark_signal_processed : String → SignalState → SignalState
mark_signal_processed key s = record s {
  processed_signals = λ k. if k == key then true else s.processed_signals k;
}
