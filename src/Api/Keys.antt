-- ===== src/Api/Keys.antt =====
-- An idempotency key over any sequence of requests.
use fleet_api.Base.{
  ◌≡◌, refl, ◌∙◌, ap, inl, inr, some, List, [], ◌∷◌, String, ok, err, ◌==◌, if◌then◌else◌, true,
  arith, Bool,
}
use fleet_api.Errors.{Reply, api, idempotency_mismatch}
use fleet_api.Workflow.{Workflow}
use fleet_api.Task.Row.{Task}
use fleet_api.Task.Evolution.{Evolves-refl, Fixed}
use fleet_api.Settings.{Settings, Ambient}
use fleet_api.Store.{Db, find_workflow, find_by_key, Outcome, no_work, find}
use fleet_api.Store.Kept.{KeptAs}
use fleet_api.Store.Keyed.{keyed, workflows_after}
use fleet_api.Idempotency.{check_idempotency, check_optional_key}
use fleet_api.Crud.{NewTask, Dispatch, create_task, replay_existing}
use fleet_api.Api.{Externals, Request, handle, serve}
use fleet_api.Api.Commits.{handle-cases, work_of-IsLawful}
use fleet_api.Api.History.{Continues, Continues-step, Continues-refl}

module _ (ext : Externals) (settings : Settings) where
  handle_keyed :
      (call : Ambient) (r : Request) (db : Db) (key : String) (t : Task)
      → find_by_key key db.tasks ≡ some t
      → KeptAs t (find_by_key key (handle ext settings call r db).tasks)
  handle_keyed call r db key t h = elim (handle-cases ext settings call db r) [
    | inl same ↦ rw same (t, h, Evolves-refl t)
    | inr done ↦ keyed db _ _ _ (work_of-IsLawful ext settings call db r) done key t h
  ]

  handle_workflows :
      (call : Ambient) (r : Request) (db : Db)
      → (handle ext settings call r db).workflows ≡ db.workflows
  handle_workflows call r db = elim (handle-cases ext settings call db r) [
    | inl same ↦ ap (λ (d : Db). d.workflows) same
    | inr done ↦ workflows_after db _ _ _ (work_of-IsLawful ext settings call db r) done
  ]

  serve_keyed :
      (a t : Task) (key : String) (rs : List (Ambient × Request)) (db : Db)
      → Continues a t
      → find_by_key key db.tasks ≡ some t
      → (t' : Task) × (find_by_key key (serve ext settings rs db).tasks ≡ some t') × Continues a t'
  unfolding serve
  serve_keyed a t key [] db c h = (t, h, c)
  serve_keyed a t key ((call, r) ∷ rs) db c h =
      let (t', h', e) = handle_keyed call r db key t h in
      serve_keyed a t' key rs (handle ext settings call r db) (Continues-step c e) h'

  pub serve_workflows :
      (rs : List (Ambient × Request)) (db : Db)
      → (serve ext settings rs db).workflows ≡ db.workflows
  unfolding serve
  serve_workflows [] db = refl
  serve_workflows ((call, r) ∷ rs) db =
      serve_workflows rs (handle ext settings call r db) ∙ handle_workflows call r db

  -- what a submission under a key that is taken by `t` is answered
  abbrev pub key_reply : NewTask → Workflow → Task → Bool → Reply Dispatch
  key_reply args w t same_input =
      if same_input
      then ok (record { task = t; workflow = w; is_replay = true })
      else err (api idempotency_mismatch)

  abbrev keyed_outcome : NewTask → Workflow → Task → Bool → Outcome Dispatch
  keyed_outcome args w t same_input = record {
    reply = key_reply args w t same_input;
    work = no_work;
  }

  create_task_keyed :
      (db : Db) (call : Ambient) (args : NewTask) (key : String) (t : Task) (w : Workflow)
      → args.idempotency_key ≡ some key
      → find_workflow args.workflow_id db ≡ some w
      → find_by_key key db.tasks ≡ some t
      → create_task ext.conforms ext.digest call db args ≡ record {
        reply = key_reply args w t (ext.digest t.input == ext.digest args.input_data);
        work = no_work;
      }
  unfolding create_task check_optional_key check_idempotency replay_existing
  create_task_keyed db call args key t w k f h = rw (k, h) (ground arith)

  -- Once a task has an idempotency key, and whatever is served since, a submission under the key
  -- inserts nothing: with an input of the same digest it is answered with that very task as it is
  -- then, with an input of another digest with IDEMPOTENCY_MISMATCH. The workflow of the submission
  -- exists.
  pub create_task-replays :
      (rs : List (Ambient × Request)) (db : Db) (call : Ambient) (args : NewTask) (key : String)
      (t : Task) (w : Workflow)
      → args.idempotency_key ≡ some key
      → find_workflow args.workflow_id db ≡ some w
      → find_by_key key db.tasks ≡ some t
      → (t' : Task) × Continues t t'
        × (create_task ext.conforms ext.digest call (serve ext settings rs db) args ≡ record {
          reply = key_reply args w t' (ext.digest t.input == ext.digest args.input_data);
          work = no_work;
        })
  create_task-replays rs db call args key t w k f h =
      let (t', found, c) = serve_keyed t t key rs db (Continues-refl t) h in
      let there : find_workflow args.workflow_id (serve ext settings rs db) ≡ some w =
        ap (λ ws. find (λ (x : Workflow). x.id) args.workflow_id ws) (serve_workflows rs db) ∙ f in
      let same_input : t'.input ≡ t.input = ap (λ (x : Fixed). x.input) c.same in
      (
        t',
        c,
        create_task_keyed (serve ext settings rs db) call args key t' w k there found
            ∙ ap (λ d. keyed_outcome args w t' (ext.digest d == ext.digest args.input_data))
                same_input,
      )
