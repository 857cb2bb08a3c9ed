-- ===== src/Examples/Sidecars.antt =====
-- A sidecar that runs one task.
use fleet_api.Base.{
  ℕ, zero, suc, ◌≡◌, refl, inl, String, true, false, Option, none, some, List, [], ◌∷◌, ◌++◌,
  eq_refl, is_some, if◌then◌else◌,
}
use fleet_api.Base.Int.{pos}
use fleet_api.Json.{Json, Dict, empty, entry, str, obj}
use fleet_api.FleetAgent.State.{
  SignalState, initial_state, register_task, has_task, is_cancelled, is_paused, get_redirect,
  set_item, is_signal_processed,
}
use fleet_api.FleetAgent.Control.{Signal, signal_key, process_signal, process_signals}
use fleet_api.FleetAgent.Delivered.{Move, signal, look, deliver, sent, deliver-sent}
use fleet_api.FleetAgent.Repeated.{process_signal-early}
use fleet_api.FleetAgent.Poller.{Sidecar, start, pending, poll_once, handle}
use fleet_api.FleetAgent.Coherent.{polls, handles, initially, next, IsCoherent, sidecar-IsCoherent}
use fleet_api.FleetAgent.Executor.{
  json, end_of_file, Process, read_events, execute, cancelled_error, redirected_error,
}
use fleet_api.FleetAgent.Numbered.{IsNumbered, execute-IsNumbered}
use fleet_api.FleetAgent.Startup.{Contact, answered, broken, refused, self_register}
use fleet_api.FleetAgent.Registered.{IsStarted, self_register_lem}
use fleet_api.Agents.Schema.{is_accepted_body}
use fleet_api.Registry.{Registration}
use fleet_api.Examples.{stock}
use fleet_api.FleetAgent.Stopped.{read_events-stops}

abbrev one : SignalState
one = register_task "t1" initial_state

abbrev told : String → Option Dict → Signal
told signal_type payload = record {
  task_id = "t1";
  signal_type = signal_type;
  timestamp = "now";
  payload = payload;
}

abbrev hint : Dict
hint = entry "payload" (str "hint") empty

abbrev moves : List Move
moves = signal (told "context_injection" (some hint)) ∷ look "t1" ∷ []

registered : has_task "t1" one ≡ true
unfolding register_task has_task set_item
registered = rw (eq_refl "t1") refl

no_context : one.context_queue "t1" ≡ some []
unfolding register_task set_item
no_context = refl

deliver-sent_example :
    (left : List Dict) × ((deliver "t1" moves one).1.context_queue "t1" ≡ some left)
    × ((deliver "t1" moves one).0 ++ left ≡ [] ++ sent "t1" moves one)
deliver-sent_example = deliver-sent "t1" moves one [] registered no_context

abbrev cancel : Signal
cancel = told "cancel_requested" none

process_signal-early_example :
    ((process_signal cancel initial_state).1 ≡ [])
    × (process_signal cancel (register_task "t1" (process_signal cancel initial_state).0)
        ≡ (register_task "t1" (process_signal cancel initial_state).0, []))
    × (is_cancelled "t1" (register_task "t1" (process_signal cancel initial_state).0) ≡ false)
    × (is_paused "t1" (register_task "t1" (process_signal cancel initial_state).0) ≡ false)
unfolding has_task initial_state
process_signal-early_example = process_signal-early cancel initial_state refl

abbrev polled : Sidecar
polled = (poll_once 1 (pending ("t1" ∷ "t2" ∷ [])) start).0

sidecar-IsCoherent_example : IsCoherent 1 (handle cancel polled)
sidecar-IsCoherent_example =
    sidecar-IsCoherent 1 (handle cancel polled)
      (next (next initially (polls (pending ("t1" ∷ "t2" ∷ [])) start)) (handles cancel polled))

abbrev log_line : Json
log_line = obj (entry "event_type" (str "log") empty)

abbrev handler : Process
handler = record {
  turns =
      record { checked = one; resumed = some (one, json log_line) }
      ∷ record { checked = one; resumed = some (one, end_of_file) }
      ∷ [];
  returncode = pos 1;
  stderr = "";
}

execute-IsNumbered_example :
    IsNumbered 0 (execute (λ n. "too long") "not found" true "t1" none (some handler)).0
execute-IsNumbered_example =
    execute-IsNumbered (λ n. "too long") "not found" true "t1" none (some handler)

fresh : is_signal_processed (signal_key cancel) one ≡ false
unfolding is_signal_processed register_task initial_state
fresh = refl

read_events-stops_example :
    (is_paused "t1" (process_signal cancel one).0 ≡ false)
    × (let now =
          (process_signals (told "resume_requested" none ∷ []) (process_signal cancel one).0).0 in
        read_events true "t1" (record { checked = now; resumed = some (one, json log_line) } ∷ []) 4
        ≡ ([], if is_some (get_redirect "t1" now) then redirected_error else cancelled_error))
read_events-stops_example =
    read_events-stops cancel (told "resume_requested" none ∷ []) one (some (one, json log_line)) []
      4 registered fresh (inl refl)

abbrev registration : Registration
registration = record {
  agent_id = "carol";
  public_key = "key";
  display_name = none;
  capabilities = some [];
  endpoint = none;
}

-- the first answer is lost
abbrev contact : ℕ → Contact
contact zero = refused
contact (suc zero) = broken 4
contact (suc (suc n)) = answered 9

self_register_lem_example :
    IsStarted
      (is_accepted_body (λ s. s) (λ s. some s) (λ b. 32))
      contact
      registration
      1
      435
      (stock [] [])
      (self_register (λ s. s) (λ s. some s) (λ b. 32) contact registration (stock [] []))
self_register_lem_example =
    self_register_lem (λ s. s) (λ s. some s) (λ b. 32) contact registration (stock [] [])
