-- ===== src/Lawfulness/Succession.antt =====
-- `retask_task` and `redirect_task` commit lawful work: the original is superseded by one new task.
use fleet_api.Base.{
  ℕ, ◌<◌, String, Bool, true, false, ◌≡◌, refl, Option, none, some, ok, require, inl, inr,
  Bool-cases, ltb, ltb→lt, [], ◌∷◌, ◌==◌, eq_iff, arith,
}
use fleet_api.Base.Ensures.{Ensures, Ensures-bind, Ensures-ok, require-eq-ok}
use fleet_api.Errors.{
  ErrorCode, retask_not_reviewable, retask_depth_exceeded, redirect_not_possible,
  invalid_state_transition,
}
use fleet_api.Json.{Dict, empty, entry, obj}
use fleet_api.Task.Status.{
  TaskStatus, retasked, redirected, is_reviewable, is_in_flight, is_superseded, valid_transitions,
}
use fleet_api.Task.Row.{Task, TaskEvent, TaskPriority, transition_to}
use fleet_api.Task.Evolution.{Evolves-refl}
use fleet_api.Settings.{Settings, Ambient}
use fleet_api.Store.{Db, find_task, max_sequence, InOrder}
use fleet_api.Store.Lawful.{IsLawful, AreEventsKnown, no_work-IsLawful, child}
use fleet_api.Idempotency.{check_optional_key}
use fleet_api.Lifecycle.Access.{
  fetch_permitted, fetch_permitted-eq-ok, or_state_error, or_state_error-eq-ok,
}
use fleet_api.Lifecycle.Successor.{successor, successor_event, resolve_priority}
use fleet_api.Lifecycle.Retask.{retask_task, retask_new, merged_input, retasked_event}
use fleet_api.Lifecycle.Redirect.{redirect_task, redirect_new, redirect_metadata, redirected_event}
use fleet_api.Lawfulness.Rules.{settle-IsLawful, update_of_found, row_of_found}
use fleet_api.Lawfulness.Single.{Evolves-transition}

-- A state that is left for one of the two superseded states was not superseded.
not_superseded :
    (s t : TaskStatus)
    → valid_transitions s t ≡ true
    → is_superseded t ≡ true
    → is_superseded s ≡ false
unfolding valid_transitions is_superseded
not_superseded s t v h = ground arith

-- A row that is there and an identifier that is free are told apart.
found-ne-fresh :
    (db : Db) (k : String) (t : Task) (fresh : String)
    → find_task k db ≡ some t
    → find_task fresh db ≡ none
    → (t.id == fresh) ≡ false
found-ne-fresh db k t fresh h f = elim (Bool-cases (t.id == fresh)) [
  | inr e ↦ e
  | inl e ↦ cc (f, row_of_found db k t t h (Evolves-refl t), (eq_iff t.id fresh).0 e)
]

module _ (db : Db) (limit : ℕ) (call : Ambient) (k workflow_id : String) (task new : Task) where
  succession_events :
      (e : TaskEvent) (link : String)
      → find_task k db ≡ some task
      → e.task_id ≡ task.id
      → max_sequence task.id db.events < e.sequence
      → AreEventsKnown db
      → find_task call.new_id db ≡ none
      → InOrder db.events (successor_event call task link ∷ e ∷ [])
  unfolding successor_event max_sequence
  succession_events e link row same_task next known fresh =
      ground (arith, known call.new_id fresh, found-ne-fresh db k task call.new_id row fresh)

  -- The unit of work of both operations, the successor being built from the original.
  pub succession-IsLawful :
      (s : TaskStatus) (input : Dict) (priority : TaskPriority) (key : Option String)
      (metadata : Dict) (e : TaskEvent) (link : String)
      → find_task k db ≡ some task
      → is_superseded s ≡ true
      → task.lineage_depth < limit
      → e.task_id ≡ task.id
      → max_sequence task.id db.events < e.sequence
      → or_state_error (transition_to call.now s task) invalid_state_transition ≡ ok new
      → IsLawful db limit (record {
        updated = some new;
        added = some (successor call workflow_id task input priority key metadata);
        new_events = successor_event call task link ∷ e ∷ [];
      })
  unfolding successor successor_event
  succession-IsLawful s input priority key metadata e link row sup room same_task next is_moved =
      let (v, eq) = or_state_error-eq-ok call.now s task new _ is_moved in
      let evolves =
        Evolves-transition call.now s task new _ new is_moved refl refl refl (λ _. refl) in
      record {
        update_ok = update_of_found db k task new row evolves;
        insertion_ok = record {
          fresh_status = refl;
          open_task = refl;
          origin =
              child task new refl (row_of_found db k task new row evolves)
                (not_superseded task.status s v sup) (ground arith) (ground arith) (omega arith);
        };
        events_named = (
          inr refl,
          (inl (rw (same_task, row_of_found db k task task row (Evolves-refl task)) refl), tt),
        );
        events_ok = λ known fresh. succession_events e link row same_task next known fresh;
      }

-- the guard on the depth
room : (d limit : ℕ) {u : Unit {0}} (e : ErrorCode) → require (ltb d limit) e ≡ ok u → d < limit
room d limit e h = ltb→lt d limit (require-eq-ok (ltb d limit) e h)

module _ (limit : ℕ) (call : Ambient) (db : Db) (workflow_id k caller : String) (task : Task) where
  retask_new-IsLawful :
      (refinement : Dict) (priority key : Option String)
      → find_task k db ≡ some task
      → task.lineage_depth < limit
      → Ensures
          (λ o. IsLawful db limit o.work)
          (retask_new call db workflow_id task caller refinement priority key)
  unfolding retask_new is_superseded
  retask_new-IsLawful refinement priority key row below =
      Ensures-bind (or_state_error (transition_to call.now retasked task) invalid_state_transition)
        _
        λ new is_moved. Ensures-bind (resolve_priority priority task) _ λ resolved _. Ensures-ok _ (
          succession-IsLawful db limit call k workflow_id task new retasked
            (merged_input task refinement) resolved key (entry "refinement" (obj refinement) empty)
            (retasked_event call db task caller refinement) "retask_of" row refl below refl
            (omega arith) is_moved)

  redirect_new-IsLawful :
      (reason : String) (input : Dict) (inherits : Bool) (priority key : Option String)
      → find_task k db ≡ some task
      → task.lineage_depth < limit
      → Ensures
          (λ o. IsLawful db limit o.work)
          (redirect_new call db workflow_id task caller reason input inherits priority key)
  unfolding redirect_new is_superseded
  redirect_new-IsLawful reason input inherits priority key row below =
      Ensures-bind
        (or_state_error (transition_to call.now redirected task) invalid_state_transition) _
        λ new is_moved. Ensures-bind (resolve_priority priority task) _ λ resolved _. Ensures-ok _ (
          succession-IsLawful db limit call k workflow_id task new redirected input resolved key
            (redirect_metadata reason inherits task) (redirected_event call db task caller reason)
            "redirect_of" row refl below refl (omega arith) is_moved)

module _ (digest : Dict → String) (settings : Settings) (call : Ambient) (db : Db)
    (workflow_id task_id caller : String) where
  pub retask_task-IsLawful :
      (refinement : Dict) (priority key : Option String)
      → IsLawful db settings.fleet_lineage_max_depth
          (retask_task digest settings call db workflow_id task_id caller refinement priority
            key).work
  unfolding retask_task
  retask_task-IsLawful refinement priority key = settle-IsLawful db _ _ (
      Ensures-bind (fetch_permitted db workflow_id task_id caller) _ λ task found.
        Ensures-bind (require (is_reviewable task.status) retask_not_reviewable) _ λ _ _.
          Ensures-bind
            (require (ltb task.lineage_depth settings.fleet_lineage_max_depth)
              retask_depth_exceeded)
            _
            λ _ below.
              Ensures-bind (check_optional_key digest db key (merged_input task refinement)) _
                elim [
                  | some existing ↦ λ _. Ensures-ok _ (no_work-IsLawful db _)
                  | none ↦ λ _.
                      retask_new-IsLawful _ call db workflow_id task_id caller task refinement
                        priority key
                        (fetch_permitted-eq-ok db workflow_id task_id caller task found).0
                        (room _ _ _ below)
                ])

  pub redirect_task-IsLawful :
      (reason : String) (input : Dict) (inherits : Bool) (priority key : Option String)
      → IsLawful db settings.fleet_lineage_max_depth
          (redirect_task digest settings call db workflow_id task_id caller reason input inherits
            priority key).work
  unfolding redirect_task
  redirect_task-IsLawful reason input inherits priority key = settle-IsLawful db _ _ (
      Ensures-bind (fetch_permitted db workflow_id task_id caller) _ λ task found.
        Ensures-bind (require (is_in_flight task.status) redirect_not_possible) _ λ _ _.
          Ensures-bind
            (require (ltb task.lineage_depth settings.fleet_lineage_max_depth)
              retask_depth_exceeded)
            _
            λ _ below. Ensures-bind (check_optional_key digest db key input) _ elim [
              | some existing ↦ λ _. Ensures-ok _ (no_work-IsLawful db _)
              | none ↦ λ _.
                  redirect_new-IsLawful _ call db workflow_id task_id caller task reason input
                    inherits priority key
                    (fetch_permitted-eq-ok db workflow_id task_id caller task found).0
                    (room _ _ _ below)
            ])
