-- ===== src/Streamer/Run.antt =====
-- A whole run that the sidecar streams for a new task.
use fleet_api.Base.{
  ℕ, ◌+◌, String, ◌≡◌, refl, sym, ◌∙◌, ap, Option, none, some, List, [], ◌∷◌, ok, false, ◌==◌,
  eq_refl, arith, All, subst, ◌⊎◌, inl, inr, Bool-cases,
}
use fleet_api.Json.{Dict}
use fleet_api.Task.Status.{accepted, valid_transitions}
use fleet_api.Task.Row.{Task, transition_to}
use fleet_api.Settings.{Settings, Ambient}
use fleet_api.Store.{
  Db, Outcome, Work, no_work, commit, perform, find_task, find, apply_update, id-find, find-replace,
  are_numbers_free,
}
use fleet_api.Store.Kept.{task_id}
use fleet_api.Crud.{NewTask, Dispatch, create_task, create_new, new_row}
use fleet_api.Sidecar.{process_sidecar_event, process_event, on_completed, on_progress}
use fleet_api.Api.{Externals, run, post_event, handle, serve}
use fleet_api.Api.Commits.{perform-no_work}
use fleet_api.Api.Sequences.{first_event-refused}
use fleet_api.Streamer.{Emission, stream, renumber, running_emission}

-- an event that is no report of a state or of a failure
abbrev pub IsOrdinary : Emission → Type 0
IsOrdinary e = ((e.event_type == "status") ≡ false) × ((e.event_type == "failed") ≡ false)

-- an accepted row under the key
abbrev pub Waits : String → Db → Type 0
Waits k db = (t : Task) × (find_task k db ≡ some t) × (t.status ≡ accepted)

process_event-accepted :
    (in_place : Dict → Dict → Dict) (now : ℕ) (event_type : String) (payload : Dict) (t t' : Task)
    → (event_type == "status") ≡ false
    → (event_type == "failed") ≡ false
    → t.status ≡ accepted
    → process_event in_place now event_type payload t ≡ ok t'
    → (t'.status ≡ accepted) × (t'.id ≡ t.id)
unfolding process_event on_completed on_progress transition_to valid_transitions
process_event-accepted in_place now event_type payload t t' s f a h = ground arith

perform-updates :
    {A : Type 0} (o : Outcome A) (db : Db)
    → o.work.added ≡ none
    → ((perform o db).1.tasks ≡ db.tasks)
      ⊎ ((perform o db).1.tasks ≡ apply_update o.work.updated db.tasks)
unfolding perform commit
perform-updates o db e = elim (Bool-cases (are_numbers_free o.work.new_events db.events)) [
  | inl free ↦ inr (rw (e, free) refl)
  | inr taken ↦ inl (rw (e, taken) refl)
]

module _ (ext : Externals) (settings : Settings) where
  module _ (call : Ambient) (db : Db) (k event_type agent : String) (payload : Dict) (n : ℕ) where
    abbrev posted : Work
    posted = (process_sidecar_event ext.in_place call db k event_type payload n agent).work

    posted_added : posted.added ≡ none
    unfolding process_sidecar_event
    posted_added = ground arith

    posted_tasks :
        let db' = handle ext settings call (post_event k event_type payload n agent) db in
        (db'.tasks ≡ db.tasks) ⊎ (db'.tasks ≡ apply_update posted.updated db.tasks)
    unfolding handle
    posted_tasks = perform-updates _ db posted_added

    posted_row :
        (t u : Task)
        → find_task k db ≡ some t
        → t.status ≡ accepted
        → (event_type == "status") ≡ false
        → (event_type == "failed") ≡ false
        → posted.updated ≡ some u
        → (u.status ≡ accepted) × (u.id ≡ t.id)
    unfolding process_sidecar_event
    posted_row t u h a s f e =
        process_event-accepted ext.in_place call.now event_type payload t u s f a (ground arith)

    written :
        (o : Option Task) (t : Task)
        → find_task k db ≡ some t
        → t.status ≡ accepted
        → ((u : Task) → o ≡ some u → (u.status ≡ accepted) × (u.id ≡ t.id))
        → (t' : Task) × (find task_id k (apply_update o db.tasks) ≡ some t')
          × (t'.status ≡ accepted)
    written none t h a g = (t, h, a)
    written (some u) t h a g =
        let same : u.id ≡ k = (g u refl).1 ∙ id-find task_id k db.tasks t h in
        (u, rw (find-replace task_id k u db.tasks, same, eq_refl k, h) refl, (g u refl).0)

    post-Waits :
        (event_type == "status") ≡ false
        → (event_type == "failed") ≡ false
        → Waits k db
        → Waits k (handle ext settings call (post_event k event_type payload n agent) db)
    post-Waits s f (t, h, a) = elim posted_tasks [
      | inl same ↦ (t, ap (find task_id k) same ∙ h, a)
      | inr e ↦
          let (t', found, a') = written posted.updated t h a (λ u e. posted_row t u h a s f e) in
          (t', ap (find task_id k) e ∙ found, a')
    ]

  run-Waits :
      (k agent : String) (n : ℕ) (es : List Emission) (db : Db)
      → All IsOrdinary es
      → Waits k db
      → Waits k (serve ext settings (renumber k agent n es) db)
  unfolding renumber serve
  run-Waits k agent n [] db _ w = w
  run-Waits k agent n (e ∷ es) db o w =
      run-Waits k agent (n + 1) es _ o.1
        (post-Waits e.call db k e.event_type agent e.payload (n + 1) o.0.0 o.0.1 w)

  created_waits :
      (call : Ambient) (db : Db) (args : NewTask) (d : Dispatch)
      → (perform (create_task ext.conforms ext.digest call db args) db).0 ≡ ok d
      → d.is_replay ≡ false
      → find_task d.task.id (handle ext settings call (run args) db) ≡ some d.task
  unfolding create_task create_new new_row handle perform commit find
  created_waits call db args d h f = ground (arith, eq_refl call.new_id)

  created_accepted :
      (call : Ambient) (db : Db) (args : NewTask) (d : Dispatch)
      → (perform (create_task ext.conforms ext.digest call db args) db).0 ≡ ok d
      → d.is_replay ≡ false
      → d.task.status ≡ accepted
  unfolding create_task create_new new_row perform
  created_accepted call db args d h f = ground arith

  -- work that is none
  unchanged :
      (call : Ambient) (db : Db) (k event_type agent : String) (payload : Dict) (n : ℕ)
      → (process_sidecar_event ext.in_place call db k event_type payload n agent).work ≡ no_work
      → handle ext settings call (post_event k event_type payload n agent) db ≡ db
  unfolding handle
  unchanged call db k event_type agent payload n e = perform-no_work _ db e

  -- When the sidecar streams the run of a task that the server has just created, and the events are no
  -- reports of a state and no failures, the task is still accepted at the end: the first event,
  -- which would have started it, has a number that the server refuses.
  pub stream-stays_accepted :
      (call start : Ambient) (db : Db) (args : NewTask) (d : Dispatch) (agent : String)
      (es : List Emission)
      → (perform (create_task ext.conforms ext.digest call db args) db).0 ≡ ok d
      → d.is_replay ≡ false
      → All IsOrdinary es
      → (t : Task) × (find_task d.task.id (
            serve ext settings
              (stream d.task.id agent start es)
              (handle ext settings call (run args) db))
          ≡ some t)
        × (t.status ≡ accepted)
  unfolding stream serve
  stream-stays_accepted call start db args d agent es h f ordinary =
      let db' = handle ext settings call (run args) db in
      let first = running_emission start in
      let refused =
        first_event-refused ext settings call start db args d first.event_type agent first.payload 1
          [] h f (omega arith) in
      let same = unchanged start db' d.task.id first.event_type agent first.payload 1 refused.1 in
      run-Waits d.task.id agent 1 es _ ordinary (
        subst (Waits d.task.id) (sym same)
          (d.task, created_waits call db args d h f, created_accepted call db args d h f))
