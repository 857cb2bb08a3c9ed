-- ===== src/Api/Commits.antt =====
-- A request either leaves the database as it is or commits the lawful work of its handler.
use fleet_api.Base.{◌≡◌, refl, ◌⊎◌, inl, inr, some, Option-cases}
use fleet_api.Settings.{Settings, Ambient}
use fleet_api.Store.{are_numbers_free, Db, Outcome, no_work, perform, commit}
use fleet_api.Store.Lawful.{IsLawful}
use fleet_api.Api.{
  Externals, Request, run, cancel, pause, resume, retask, redirect, inject, post_event, work_of,
  handle,
}
use fleet_api.Lawfulness.Single.{cancel_task-IsLawful, pause_task-IsLawful, resume_task-IsLawful}
use fleet_api.Lawfulness.Succession.{retask_task-IsLawful, redirect_task-IsLawful}
use fleet_api.Lawfulness.Others.{
  create_task-IsLawful, inject_context-IsLawful, process_sidecar_event-IsLawful,
}

perform-cases :
    {A : Type 0} (o : Outcome A) (db : Db)
    → ((perform o db).1 ≡ db) ⊎ (commit o.work db ≡ some (perform o db).1)
unfolding perform
perform-cases o db = elim (Option-cases (commit o.work db)) [
  | inl e ↦ inl (rw e refl)
  | inr (db', e) ↦ inr (rw e refl)
]

pub perform-no_work :
    {A : Type 0} (o : Outcome A) (db : Db) → o.work ≡ no_work → (perform o db).1 ≡ db
unfolding perform commit are_numbers_free
perform-no_work o db e = rw e refl

module _ (ext : Externals) (settings : Settings) (call : Ambient) (db : Db) where
  pub work_of-IsLawful :
      (r : Request) → IsLawful db settings.fleet_lineage_max_depth (work_of ext settings call r db)
  unfolding work_of
  work_of-IsLawful (run args) = create_task-IsLawful ext.conforms _ call db args ext.digest
  work_of-IsLawful (cancel wf t by reason) = cancel_task-IsLawful _ call db wf t by reason
  work_of-IsLawful (pause wf t by reason) = pause_task-IsLawful _ call db wf t by settings reason
  work_of-IsLawful (resume wf t by p) = resume_task-IsLawful _ call db wf t by settings p
  work_of-IsLawful (retask wf t by d p key) =
      retask_task-IsLawful ext.digest settings call db wf t by d p key
  work_of-IsLawful (redirect wf t by reason d i p key) =
      redirect_task-IsLawful ext.digest settings call db wf t by reason d i p key
  work_of-IsLawful (inject wf t by args) = inject_context-IsLawful ext.int_of _ call db wf t by args
  work_of-IsLawful (post_event t e d n by) =
      process_sidecar_event-IsLawful ext.in_place _ call db t e d n by

  pub handle-cases :
      (r : Request)
      → (handle ext settings call r db ≡ db)
        ⊎ (commit (work_of ext settings call r db) db ≡ some (handle ext settings call r db))
  unfolding handle work_of
  handle-cases (run args) = perform-cases _ db
  handle-cases (cancel wf t by reason) = perform-cases _ db
  handle-cases (pause wf t by reason) = perform-cases _ db
  handle-cases (resume wf t by p) = perform-cases _ db
  handle-cases (retask wf t by d p key) = perform-cases _ db
  handle-cases (redirect wf t by reason d i p key) = perform-cases _ db
  handle-cases (inject wf t by args) = perform-cases _ db
  handle-cases (post_event t e d n by) = perform-cases _ db
