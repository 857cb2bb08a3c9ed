-- ===== src/Api/Superseded.antt =====
-- A task that another one has taken over from, over any sequence of requests.
use fleet_api.Base.{
  ◌≡◌, refl, ◌∙◌, ap, sym, inr, true, Option, none, some, List, ◌∷◌, String, ok, subst, arith,
}
use fleet_api.Workflow.{Workflow}
use fleet_api.Task.Status.{TaskStatus, is_superseded}
use fleet_api.Task.Row.{Task}
use fleet_api.Task.Evolution.{fixed, moved}
use fleet_api.Settings.{Settings, Ambient}
use fleet_api.Store.{Db, Outcome, find_task, find_workflow, find, id-find, perform, commit}
use fleet_api.Store.Kept.{updated_found}
use fleet_api.Lifecycle.Access.{fetch_permitted, fetch_permitted-eq-ok}
use fleet_api.Api.{Externals, Request, handle, serve, work_of}
use fleet_api.Api.Commits.{work_of-IsLawful}
use fleet_api.Api.History.{task_history, closed_status}
use fleet_api.Api.Keys.{serve_workflows}

-- a request that is answered is committed
pub perform-eq-ok :
    {A : Type 0} (o : Outcome A) (db : Db) (a : A)
    → (perform o db).0 ≡ ok a
    → (o.reply ≡ ok a) × (commit o.work db ≡ some (perform o db).1)
unfolding perform
perform-eq-ok o db a h = split (commit o.work db) refl
  where
    split :
        (c : Option Db)
        → commit o.work db ≡ c
        → (o.reply ≡ ok a) × (commit o.work db ≡ some (perform o db).1)
    split none e = absurd (ground arith)
    split (some db') e = (ground arith, ground arith)

-- The permission survives as long as the workflow and the task's fixed columns do.
pub fetch_permitted_again :
    (db db' : Db) (wf k by : String) (t t' : Task)
    → fetch_permitted db wf k by ≡ ok t
    → find_workflow wf db' ≡ find_workflow wf db
    → find_task k db' ≡ some t'
    → fixed t' ≡ fixed t
    → fetch_permitted db' wf k by ≡ ok t'
unfolding fetch_permitted
fetch_permitted_again db db' wf k by t t' h w f same = ground arith

module _ (ext : Externals) (settings : Settings) (call : Ambient) (db : Db) (wf k by : String) where
  -- After a request that superseded the task, whatever is served: who was permitted still is, and the
  -- task is in that state.
  pub superseded_later :
      (s : TaskStatus) (r : Request) (t : Task) (rs : List (Ambient × Request))
      → is_superseded s ≡ true
      → fetch_permitted db wf k by ≡ ok t
      → (work_of ext settings call r db).updated ≡ some (moved call.now s t)
      → commit (work_of ext settings call r db) db ≡ some (handle ext settings call r db)
      → (t' : Task) × (fetch_permitted (serve ext settings ((call, r) ∷ rs) db) wf k by ≡ ok t')
        × (t'.status ≡ s)
  superseded_later s r t rs sup may up done =
      let (row, _) = fetch_permitted-eq-ok db wf k by t may in
      let same_id : t.id ≡ k = id-find (λ (x : Task). x.id) k db.tasks t row in
      let moved_row : find_task k (handle ext settings call r db) ≡ some (moved call.now s t) =
        ap (λ j. find_task j (handle ext settings call r db)) (sym same_id)
        ∙ updated_found db _ _ _ (work_of-IsLawful ext settings call db r) done (moved call.now s t)
            t up (ap (λ j. find_task j db) same_id ∙ row) in
      let (t1, there, status_kept) =
        closed_status ext settings rs (handle ext settings call r db) k (moved call.now s t)
          moved_row (inr sup) in
      let (t2, again, c) =
        task_history ext settings rs (handle ext settings call r db) k (moved call.now s t)
          moved_row in
      let same : t2 ≡ t1 = cc in
      (
        t1,
        fetch_permitted_again db _ wf k by t t1 may
            (ap (find (λ (w : Workflow). w.id) wf)
              (serve_workflows ext settings ((call, r) ∷ rs) db))
            (unfold serve in there) (subst (λ x. fixed x ≡ fixed (moved call.now s t)) same c.same),
        status_kept,
      )
