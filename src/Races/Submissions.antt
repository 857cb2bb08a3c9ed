-- ===== src/Races/Submissions.antt =====
-- Two submissions under one idempotency key that overlap.
use fleet_api.Base.{◌≡◌, refl, String, false, some, ok, err, List, ◌∷◌, ap, eq_refl, arith}
use fleet_api.Errors.{integrity, Reply}
use fleet_api.Task.Row.{Task}
use fleet_api.Settings.{Ambient}
use fleet_api.Store.{Db, Work, Outcome, apply_update, perform, commit, is_insertable, find_by_key}
use fleet_api.Crud.{NewTask, Dispatch, create_task, create_new, replay_existing, new_row}
use fleet_api.Api.{Externals}
use fleet_api.Api.Superseded.{perform-eq-ok}
use fleet_api.Http.{respond, unhandled_exception_handler}
use fleet_api.Routes.Run.{run_response}
use fleet_api.Routes.{answered}
use fleet_api.Routes.Answers.{Surroundings, finished}
use fleet_api.Races.{overlapping}

module _ (ext : Externals) (call call' : Ambient) (db : Db) (args args' : NewTask)
    (key : String) where
  abbrev pub first : Outcome Dispatch
  first = create_task ext.conforms ext.digest call db args

  abbrev pub second : Outcome Dispatch
  second = create_task ext.conforms ext.digest call' db args'

  -- a submission that has made a task: the key was free, and is the new row's
  created_keyed :
      (now : Ambient) (sent : NewTask) (d : Dispatch)
      → sent.idempotency_key ≡ some key
      → (create_task ext.conforms ext.digest now db sent).reply ≡ ok d
      → d.is_replay ≡ false
      → (t : Task) × ((create_task ext.conforms ext.digest now db sent).work.added ≡ some t)
        × (t.idempotency_key ≡ some key)
  unfolding create_task create_new replay_existing new_row
  created_keyed now sent d k h f = (d.task, ground (arith, k), ground (arith, k))

  -- a key that the newest row has is not free
  key_taken :
      (t u : Task) (rest : List Task) (d : Db)
      → d.tasks ≡ t ∷ rest
      → t.idempotency_key ≡ some key
      → u.idempotency_key ≡ some key
      → is_insertable u d ≡ false
  unfolding is_insertable find_by_key
  key_taken t u rest d rows h e = ground (arith, eq_refl key)

  rows_after :
      (w : Work) (t : Task) (d : Db)
      → w.added ≡ some t
      → commit w db ≡ some d
      → d.tasks ≡ t ∷ apply_update w.updated db.tasks
  unfolding commit
  rows_after w t d new done = ground arith

  refused_commit :
      (o : Outcome Dispatch) (u : Task) (d : Db)
      → o.work.added ≡ some u
      → is_insertable u d ≡ false
      → perform o d ≡ (err integrity, d)
  unfolding perform commit
  refused_commit o u d new full = ground arith

  -- Where two submissions under the same idempotency key, which was free, overlap, the first to commit
  -- makes its task, and the second, which alone would have made one too, writes nothing: it is refused
  -- by the key's unique constraint, which no handler catches, and so answered with 500 in place of a
  -- replay.
  pub create_task-overlapping :
      (site : Surroundings) (d d' : Dispatch)
      → args.idempotency_key ≡ some key
      → args'.idempotency_key ≡ some key
      → (perform first db).0 ≡ ok d
      → second.reply ≡ ok d'
      → d.is_replay ≡ false
      → d'.is_replay ≡ false
      → let (told, told', db'') = overlapping first second db in
        (told ≡ ok d)
        × (told' ≡ err integrity)
        × (db'' ≡ (perform first db).1)
        × ((finished site (answered (told', db'') (λ e _. run_response (some key) e))).0.status_code
            ≡ 500)
  unfolding respond unhandled_exception_handler
  create_task-overlapping site d d' k k' h h' f f' =
      let (replied, done) = perform-eq-ok first db d h in
      let (t, new, keyed) = created_keyed call args d k replied f in
      let (u, new', keyed') = created_keyed call' args' d' k' h' f' in
      let full =
        key_taken t u _ (perform first db).1 (rows_after first.work t (perform first db).1 new done)
          keyed keyed' in
      let refused = refused_commit second u (perform first db).1 new' full in
      (
        h,
        ap (λ (p : Reply Dispatch × Db). p.0) refused,
        ap (λ (p : Reply Dispatch × Db). p.1) refused,
        rw refused refl,
      )
