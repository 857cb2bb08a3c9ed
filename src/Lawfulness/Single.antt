-- ===== src/Lawfulness/Single.antt =====
-- `cancel_task`, `pause_task` and `resume_task` commit lawful work.
use fleet_api.Base.{
  ℕ, String, ◌≡◌, refl, ap, ◌∙◌, is_some, true, Option, none, some, ok, err, Result, require, arith,
}
use fleet_api.Base.Ensures.{Ensures, Ensures-bind, Ensures-ok, Ensures-if}
use fleet_api.Errors.{ErrorCode, task_not_pausable, task_not_paused}
use fleet_api.Task.Status.{
  TaskStatus, cancelled, paused, running, InvalidStateTransition, is_running, is_paused,
}
use fleet_api.Task.Row.{Task, TaskEvent, transition_to}
use fleet_api.Task.Evolution.{Evolves, Evolves-moved, Evolves-refl, fixed, transition_to-eq-ok}
use fleet_api.Settings.{Settings, Ambient}
use fleet_api.Store.{Db, find_task}
use fleet_api.Store.Lawful.{IsLawful}
use fleet_api.Lifecycle.Access.{
  fetch_permitted, fetch_permitted-eq-ok, or_state_error, or_state_error-eq-ok,
}
use fleet_api.Lifecycle.Cancel.{cancel_task}
use fleet_api.Lifecycle.Pause.{pause_task, pause_event}
use fleet_api.Lifecycle.Resume.{
  resume_task, auto_cancel, continue_task, with_priority, or_unchanged, is_expired,
}
use fleet_api.Lawfulness.Rules.{settle-IsLawful, single-IsLawful, id_of_evolved}

module _ (now : ℕ) (s : TaskStatus) (task new : Task) (code : ErrorCode) where
  -- The rows that a handler makes of a moved task, by assigning to `paused_at` and `priority` only.
  pub Evolves-transition :
      (row : Task)
      → or_state_error (transition_to now s task) code ≡ ok new
      → fixed row ≡ fixed new
      → row.status ≡ new.status
      → row.completed_at ≡ new.completed_at
      → (is_some new.started_at ≡ true → row.started_at ≡ new.started_at)
      → Evolves task row
  Evolves-transition row h same st co sa =
      let (v, e) = or_state_error-eq-ok now s task new code h in
      let q : new.started_at ≡ task.started_at = ap (λ (t : Task). t.started_at) e in
      Evolves-moved now s task row v (ground arith) (ground arith) (ground arith)
        (λ p. sa (rw q p) ∙ q)

-- An exception that is passed over leaves the row as it was.
or_unchanged-Evolves :
    (now : ℕ) (s : TaskStatus) (task : Task) (r : Result InvalidStateTransition Task)
    → transition_to now s task ≡ r
    → Evolves task (or_unchanged r task)
or_unchanged-Evolves now s task (ok new) h =
    let (v, e) = transition_to-eq-ok now s task new h in
    Evolves-moved now s task new v (ground arith) (ground arith) (ground arith) (λ _. ground arith)
or_unchanged-Evolves now s task (err _) h = Evolves-refl task

-- `with_priority` assigns to `priority` only.
with_priority-eq-ok :
    (priority : Option String) (task row : Task)
    → with_priority priority task ≡ ok row
    → (fixed row ≡ fixed task)
      × (row.status ≡ task.status)
      × (row.completed_at ≡ task.completed_at)
      × (row.started_at ≡ task.started_at)
unfolding with_priority
with_priority-eq-ok priority task row h = ground arith

module _ (limit : ℕ) (call : Ambient) (db : Db) (workflow_id task_id caller : String) where
  pub cancel_task-IsLawful :
      (reason : Option String)
      → IsLawful db limit (cancel_task call db workflow_id task_id caller reason).work
  unfolding cancel_task
  cancel_task-IsLawful reason = settle-IsLawful db limit _ (
      Ensures-bind (fetch_permitted db workflow_id task_id caller) _ λ task found.
        Ensures-bind (or_state_error (transition_to call.now cancelled task) _) _ λ new is_moved.
          Ensures-ok _ (
            single-IsLawful db limit task_id task new _
              (fetch_permitted-eq-ok db workflow_id task_id caller task found).0
              (Evolves-transition call.now cancelled task new _ new is_moved refl refl refl
                (λ _. refl))
              (id_of_evolved db task_id task task
                (fetch_permitted-eq-ok db workflow_id task_id caller task found).0
                (Evolves-refl task))
              (omega arith)))

  pub pause_task-IsLawful :
      (settings : Settings) (reason : Option String)
      → IsLawful db limit (pause_task settings call db workflow_id task_id caller reason).work
  unfolding pause_task
  pause_task-IsLawful settings reason = settle-IsLawful db limit _ (
      Ensures-bind (fetch_permitted db workflow_id task_id caller) _ λ task found.
        Ensures-bind (require (is_running task.status) task_not_pausable) _ λ _ _.
          Ensures-bind (or_state_error (transition_to call.now paused task) task_not_pausable) _
            λ new is_moved. Ensures-ok _ (
              single-IsLawful db limit task_id task (record new { paused_at = some call.now })
                (pause_event settings db call.now task (record new { paused_at = some call.now })
                  caller reason)
                (fetch_permitted-eq-ok db workflow_id task_id caller task found).0
                (Evolves-transition call.now paused task new _ _ is_moved refl refl refl
                  (λ _. refl))
                (id_of_evolved db task_id task new
                  (fetch_permitted-eq-ok db workflow_id task_id caller task found).0
                  (Evolves-transition call.now paused task new _ _ is_moved refl refl refl
                    (λ _. refl)))
                (omega arith)))

  -- the row that `auto_cancel` commits
  auto_cancel-IsLawful :
      (A : Type 0) (task : Task)
      → find_task task_id db ≡ some task
      → IsLawful db limit (auto_cancel {A = A} db call.now task).work
  unfolding auto_cancel
  auto_cancel-IsLawful A task found =
      single-IsLawful db limit task_id task _ _ found
        (or_unchanged-Evolves call.now cancelled task _ refl)
        (id_of_evolved db task_id task task found (Evolves-refl task)) (omega arith)

  continue_task-IsLawful :
      (task : Task) (priority : Option String)
      → find_task task_id db ≡ some task
      → Ensures (λ o. IsLawful db limit o.work) (continue_task call db task caller priority)
  unfolding continue_task
  continue_task-IsLawful task priority found =
      Ensures-bind (or_state_error (transition_to call.now running task) task_not_paused) _
        λ new is_moved.
          Ensures-bind (with_priority priority (record new { paused_at = none })) _ λ row chosen.
            let (same, st, co, sa) = with_priority-eq-ok priority _ row chosen in
            Ensures-ok _ (
              single-IsLawful db limit task_id task row _ found
                (Evolves-transition call.now running task new _ row is_moved same st co (λ _. sa))
                (id_of_evolved db task_id task row found (
                  Evolves-transition call.now running task new _ row is_moved same st co (λ _. sa)))
                (omega arith))

  pub resume_task-IsLawful :
      (settings : Settings) (priority : Option String)
      → IsLawful db limit (resume_task settings call db workflow_id task_id caller priority).work
  unfolding resume_task
  resume_task-IsLawful settings priority = settle-IsLawful db limit _ (
      Ensures-bind (fetch_permitted db workflow_id task_id caller) _ λ task found.
        Ensures-bind (require (is_paused task.status) task_not_paused) _ λ _ _.
          let (row, _) = fetch_permitted-eq-ok db workflow_id task_id caller task found in
          Ensures-if (is_expired settings call.now task.paused_at) _ _
            (λ _. Ensures-ok _ (auto_cancel-IsLawful (Task × TaskEvent) task row))
            (λ _. continue_task-IsLawful task priority row))
