-- ===== src/Lawfulness/Others.antt =====
-- `create_task`, `inject_context` and `process_sidecar_event` commit lawful work.
use fleet_api.Base.{
  ℕ, ◌<◌, String, Bool, not, ◌≡◌, refl, inr, Option, none, some, ok, require, or_raise, leb, true,
  is_some, ◌==◌, arith,
}
use fleet_api.Base.Int.{ℤ}
use fleet_api.Base.Ensures.{
  Ensures, Ensures-bind, Ensures-ok, Ensures-if, require-eq-ok, or_raise-eq-ok,
}
use fleet_api.Errors.{
  ErrorCode, api, invalid_input, task_not_found, not_authorized, invalid_state_transition,
  context_rejected, uncaught, workflow_not_found, agent_suspended,
}
use fleet_api.Json.{Json, Dict, get}
use fleet_api.Task.Status.{TaskStatus, completed, failed, is_in_flight, is_running}
use fleet_api.Task.Row.{Task, transition_to, parse_priority}
use fleet_api.Task.Evolution.{Evolves, Evolves-same_status, Evolves-refl, fixed}
use fleet_api.Settings.{Ambient}
use fleet_api.Store.{Db, lift, find_task, find_workflow, find_agent, max_sequence}
use fleet_api.Store.Lawful.{IsLawful, no_work-IsLawful, root}
use fleet_api.Idempotency.{check_optional_key}
use fleet_api.Crud.{NewTask, create_task, create_new, is_available, is_valid_input, or_text}
use fleet_api.Lifecycle.Access.{fetch_permitted, fetch_permitted-eq-ok, or_state_error}
use fleet_api.Context.{Injection, inject_context, get_max_context_sequence, is_at_most}
use fleet_api.Sidecar.{
  process_sidecar_event, process_event, on_status, on_completed, on_failed, on_progress,
  is_valid_event_type, is_executor, requested_status, start,
}
use fleet_api.Lawfulness.Rules.{settle-IsLawful, settle_any-IsLawful, single-IsLawful, row_of_found}
use fleet_api.Lawfulness.Single.{Evolves-transition}

module _ (conforms : Dict → Dict → Bool) (limit : ℕ) (call : Ambient) (db : Db)
    (args : NewTask) where
  create_new-IsLawful : Ensures (λ o. IsLawful db limit o.work) (create_new conforms call db args)
  unfolding create_new max_sequence
  create_new-IsLawful =
      Ensures-bind (or_raise (find_workflow args.workflow_id db) workflow_not_found) _ λ workflow _.
        Ensures-bind
          (require
            (is_available (find_agent (or_text args.executor_agent_id workflow.owner_agent_id) db))
            agent_suspended)
          _
          λ _ _.
            Ensures-bind
              (require (is_valid_input conforms args.input_data workflow.input_schema)
                invalid_input)
              _
              λ _ _.
                Ensures-bind (or_raise (parse_priority args.priority) invalid_input) _ λ priority _.
                  Ensures-ok _ (record {
                    update_ok = tt;
                    insertion_ok = record {
                      fresh_status = refl;
                      open_task = refl;
                      origin = root (record { depth = refl; parent = refl; root = refl });
                    };
                    events_named = (inr refl, tt);
                    events_ok = λ known fresh. (omega (arith, known call.new_id fresh), tt);
                  })

  pub create_task-IsLawful :
      (digest : Dict → String) → IsLawful db limit (create_task conforms digest call db args).work
  unfolding create_task
  create_task-IsLawful digest = settle-IsLawful db limit _ (
      Ensures-bind (check_optional_key digest db args.idempotency_key args.input_data) _ elim [
        | some existing ↦ λ _.
            Ensures-bind (or_raise (find_workflow args.workflow_id db) workflow_not_found) _
              λ _ _. Ensures-ok _ (no_work-IsLawful db limit)
        | none ↦ λ _. create_new-IsLawful
      ])

-- `start` sets the time of the start where there is none.
start_lem :
    (now : ℕ) (s : TaskStatus) (task : Task)
    → (fixed (start now s task) ≡ fixed task)
      × ((start now s task).status ≡ task.status)
      × ((start now s task).completed_at ≡ task.completed_at)
      × (is_some task.started_at ≡ true → (start now s task).started_at ≡ task.started_at)
unfolding is_running
start_lem now s task = ground arith

-- What the handlers of one type of event make of the task.
module _ (now : ℕ) (payload : Dict) (task : Task) where
  Evolves-on_status : Ensures (Evolves task) (on_status now payload task)
  unfolding on_status
  Evolves-on_status =
      Ensures-bind (or_raise (requested_status (get "status" payload)) invalid_input) _ λ s _.
        Ensures-bind (or_state_error (transition_to now s task) invalid_state_transition) _
          λ new is_moved.
            let (same, st, co, sa) = start_lem now s new in
            Ensures-ok _ (Evolves-transition now s task new _ _ is_moved same st co sa)

  Evolves-on_failed : Ensures (Evolves task) (on_failed now payload task)
  unfolding on_failed
  Evolves-on_failed =
      Ensures-bind (or_state_error (transition_to now failed task) invalid_state_transition) _
        λ new is_moved.
          Ensures-ok _
            (Evolves-transition now failed task new _ _ is_moved refl refl refl (λ _. refl))

  module _ (in_place : Dict → Dict → Dict) where
    Evolves-on_completed : Ensures (Evolves task) (on_completed in_place now payload task)
    unfolding on_completed
    Evolves-on_completed =
        Ensures-bind (or_state_error (transition_to now completed task) invalid_state_transition) _
          λ new is_moved. Ensures-ok _ (
            Evolves-transition now completed task new _ _ is_moved (ground arith) (ground arith)
              (ground arith) (λ _. ground arith))

    Evolves-on_progress : Ensures (Evolves task) (on_progress in_place payload task)
    unfolding on_progress
    Evolves-on_progress =
        Ensures-bind (or_raise (get "progress" payload) invalid_input) _
          λ progress _. Ensures-ok _ (Evolves-same_status task _ refl refl refl refl)

    Evolves-process_event :
        (event_type : String)
        → Ensures (Evolves task) (process_event in_place now event_type payload task)
    unfolding process_event
    Evolves-process_event t =
        Ensures-if (t == "status") _ _ (λ _. Evolves-on_status)
          λ _.
            Ensures-if (t == "completed") _ _ (λ _. Evolves-on_completed)
              λ _.
                Ensures-if (t == "failed") _ _ (λ _. Evolves-on_failed)
                  λ _.
                    Ensures-if (t == "progress") _ _ (λ _. Evolves-on_progress)
                      λ _. Ensures-ok task (Evolves-refl task)

-- the test of the sequence number
above : (a b : ℕ) {u : Unit {0}} (e : ErrorCode) → require (not (leb a b)) e ≡ ok u → b < a
above a b e h = ground (arith, require-eq-ok (not (leb a b)) e h)

module _ (in_place : Dict → Dict → Dict) (limit : ℕ) (call : Ambient) (db : Db) where
  pub process_sidecar_event-IsLawful :
      (task_id event_type : String) (payload : Dict) (sequence : ℕ) (agent : String)
      → IsLawful db limit
          (process_sidecar_event in_place call db task_id event_type payload sequence agent).work
  unfolding process_sidecar_event
  process_sidecar_event-IsLawful task_id event_type payload sequence agent =
      settle-IsLawful db limit _ (
        Ensures-bind (require (is_valid_event_type event_type) invalid_input) _ λ _ _.
          Ensures-bind (or_raise (find_task task_id db) task_not_found) _ λ task found.
            Ensures-bind (require (is_executor task.executor_agent_id agent) not_authorized) _
              λ _ _.
                Ensures-bind
                  (require (not (leb sequence (max_sequence task_id db.events))) invalid_input) _
                  λ _ seq.
                    Ensures-bind (process_event in_place call.now event_type payload task) _
                      λ new done. Ensures-ok _ (
                        single-IsLawful db limit task_id task new _
                          (or_raise-eq-ok (find_task task_id db) task_not_found task found)
                          ((Evolves-process_event call.now payload task in_place event_type).at new
                            done)
                          refl (above sequence (max_sequence task_id db.events) invalid_input seq)))

module _ (int_of : Json → Option ℤ) (limit : ℕ) (call : Ambient) (db : Db) where
  named :
      (workflow_id task_id caller : String) (task : Task)
      → lift (fetch_permitted db workflow_id task_id caller) ≡ ok task
      → is_some (find_task task.id db) ≡ true
  named workflow_id task_id caller task h =
      let row = (fetch_permitted-eq-ok db workflow_id task_id caller task (ground arith)).0 in
      rw (row_of_found db task_id task task row (Evolves-refl task)) refl

  pub inject_context-IsLawful :
      (workflow_id task_id caller : String) (args : Injection)
      → IsLawful db limit (inject_context int_of call db workflow_id task_id caller args).work
  unfolding inject_context
  inject_context-IsLawful workflow_id task_id caller args = settle_any-IsLawful db limit _ (
      Ensures-bind (lift (fetch_permitted db workflow_id task_id caller)) _ λ task found.
        Ensures-bind (require (is_in_flight task.status) (api context_rejected)) _ λ _ _.
          Ensures-bind (or_raise (get_max_context_sequence int_of task_id db.events) uncaught) _
            λ last _.
              Ensures-bind (require (not (is_at_most args.sequence last)) (api context_rejected)) _
                λ _ _. Ensures-ok _ (record {
                  update_ok = tt;
                  insertion_ok = tt;
                  events_named = (named workflow_id task_id caller task found, tt);
                  events_ok = λ _ _. (omega arith, tt);
                }))
