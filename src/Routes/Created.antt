-- ===== src/Routes/Created.antt =====
-- Answers with 201: a task was made, as the successor of the one that the request names.

use fleet_api.Base.{◌≡◌, ◌≢◌, refl, ◌∙◌, ap, String, Bool, Option, some, ok, err, false, arith}
use fleet_api.Errors.{ErrorCode, Failure, api, integrity, uncaught, error_status_codes, Reply}
use fleet_api.Settings.{Settings, Ambient}
use fleet_api.Json.{Dict}
use fleet_api.Store.{Db, id-find}
use fleet_api.Task.Row.{Task}
use fleet_api.Lifecycle.Successor.{Succession, successor}
use fleet_api.Lifecycle.Retask.{retask_task, retask_new}
use fleet_api.Lifecycle.Redirect.{redirect_task, redirect_new}
use fleet_api.Api.{Externals}
use fleet_api.Lifecycle.Access.{fetch_permitted, fetch_permitted-eq-ok}
use fleet_api.Http.{Response, respond, fleet_api_error_handler, unhandled_exception_handler}
use fleet_api.Routes.Blocks.{answered}
use fleet_api.Routes.Answers.{Surroundings, finished}
use fleet_api.Routes.Succession.{retask_response, redirect_response}

no_error_201 : (code : ErrorCode) → error_status_codes code ≢ 201
unfolding error_status_codes
no_error_201 code h = ground arith

no_failure_201 :
    (site : Surroundings) (e : Failure) (db : Db) → (finished site (err e, db)).0.status_code ≢ 201
unfolding respond fleet_api_error_handler unhandled_exception_handler
no_failure_201 site (api code) db h = no_error_201 code h
no_failure_201 site integrity db h = absurd (omega arith)
no_failure_201 site uncaught db h = absurd (omega arith)

-- An answer with 201 is that of a task that was made, and no replay.
pub record IsCreated (site : Surroundings) (make : Succession → Db → Response)
    (p : Reply Succession × Db) : Type 0 where
  pub made : Succession
  pub replied : p.0 ≡ ok made
  pub fresh : made.is_replay ≡ false
  pub shown : finished site (answered p make) ≡ (make made p.1, p.1)

pub created :
    (site : Surroundings) (make : Succession → Db → Response) (reply : Reply Succession) (db : Db)
    → ((s : Succession) → (make s db).status_code ≡ 201 → s.is_replay ≡ false)
    → (finished site (answered (reply, db) make)).0.status_code ≡ 201
    → IsCreated site make (reply, db)
created site make (ok s) db fresh h = record {
  made = s;
  replied = refl;
  fresh = fresh s h;
  shown = refl;
}
created site make (err e) db fresh h = absurd (no_failure_201 site e db h)

-- 201 is not the status of a replay
pub retask_fresh :
    (wf : String) (key : Option String) (db : Db) (s : Succession)
    → (retask_response wf key s db).status_code ≡ 201
    → s.is_replay ≡ false
unfolding retask_response
retask_fresh wf key db s h = ground arith

pub redirect_fresh :
    (wf : String) (key : Option String) (db : Db) (s : Succession)
    → (redirect_response wf key s db).status_code ≡ 201
    → s.is_replay ≡ false
unfolding redirect_response
redirect_fresh wf key db s h = ground arith

-- the task that is found is the one that is named
pub named_parent :
    (db : Db) (wf k by : String) (t : Task) (parent : String)
    → fetch_permitted db wf k by ≡ ok t
    → k ≡ parent
    → some t.id ≡ some parent
named_parent db wf k by t parent may e =
    let (row, _) = fetch_permitted-eq-ok db wf k by t may in
    ap some (id-find (λ (x : Task). x.id) k db.tasks t row ∙ e)

module _ (ext : Externals) (settings : Settings) (call : Ambient) (db : Db) (wf k by : String) where
  pub retask_task-added :
      (refinement : Dict) (priority key : Option String) (s : Succession) (t : Task)
      → fetch_permitted db wf k by ≡ ok t
      → (retask_task ext.digest settings call db wf k by refinement priority key).reply ≡ ok s
      → s.is_replay ≡ false
      → ((retask_task ext.digest settings call db wf k by refinement priority key).work.added
          ≡ some s.new_task)
        × (s.new_task.parent_task_id ≡ some t.id)
  unfolding retask_task retask_new successor
  retask_task-added refinement priority key s t may h f = ground (arith, may)

  pub redirect_task-added :
      (reason : String) (input : Dict) (inherits : Bool) (priority key : Option String)
      (s : Succession) (t : Task)
      → fetch_permitted db wf k by ≡ ok t
      → (redirect_task ext.digest settings call db wf k by reason input inherits priority key).reply
        ≡ ok s
      → s.is_replay ≡ false
      → ((redirect_task ext.digest settings call db wf k by reason input inherits priority
            key).work.added
          ≡ some s.new_task)
        × (s.new_task.parent_task_id ≡ some t.id)
  unfolding redirect_task redirect_new successor
  redirect_task-added reason input inherits priority key s t may h f = ground (arith, may)
