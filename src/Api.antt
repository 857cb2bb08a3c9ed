-- ===== src/Api.antt =====
-- The endpoints of src/fleet_api/tasks/routes.py that change the database, as requests that run one
-- after another; each request has its own session.
pub mod Commits
pub mod Invariant
pub mod History
pub mod Keys
pub mod Superseded
pub mod Replays
pub mod Sequences
pub mod Authority
use fleet_api.Base.{ℕ, String, Bool, Option, List, [], ◌∷◌}
use fleet_api.Base.Int.{ℤ}
use fleet_api.Json.{Json, Dict}
use fleet_api.Settings.{Settings, Ambient}
use fleet_api.Store.{Db, Work, perform}
use fleet_api.Crud.{NewTask, create_task}
use fleet_api.Lifecycle.Cancel.{cancel_task}
use fleet_api.Lifecycle.Pause.{pause_task}
use fleet_api.Lifecycle.Resume.{resume_task}
use fleet_api.Lifecycle.Retask.{retask_task}
use fleet_api.Lifecycle.Redirect.{redirect_task}
use fleet_api.Context.{Injection, inject_context}
use fleet_api.Sidecar.{process_sidecar_event}

-- What the handlers take from code that is not in the repository.
pub record Externals : Type 0 where
  pub digest : Dict → String
  pub conforms : Dict → Dict → Bool
  pub in_place : Dict → Dict → Dict
  pub int_of : Json → Option ℤ

-- the path, the authenticated caller, and the body
pub data Request : Type 0 where
  run : NewTask → Request
  cancel : String → String → String → Option String → Request
  pause : String → String → String → Option String → Request
  resume : String → String → String → Option String → Request
  retask : String → String → String → Dict → Option String → Option String → Request
  redirect :
      String → String → String → String → Dict → Bool → Option String → Option String → Request
  inject : String → String → String → Injection → Request
  post_event : String → String → Dict → ℕ → String → Request

module _ (ext : Externals) (settings : Settings) where
  -- the unit of work of the request's handler
  unfoldable pub work_of : Ambient → Request → Db → Work
  work_of call (run args) db = (create_task ext.conforms ext.digest call db args).work
  work_of call (cancel wf t by reason) db = (cancel_task call db wf t by reason).work
  work_of call (pause wf t by reason) db = (pause_task settings call db wf t by reason).work
  work_of call (resume wf t by priority) db = (resume_task settings call db wf t by priority).work
  work_of call (retask wf t by refinement priority key) db =
      (retask_task ext.digest settings call db wf t by refinement priority key).work
  work_of call (redirect wf t by reason input inherits priority key) db =
      (redirect_task ext.digest settings call db wf t by reason input inherits priority key).work
  work_of call (inject wf t by args) db = (inject_context ext.int_of call db wf t by args).work
  work_of call (post_event t event_type payload sequence by) db =
      (process_sidecar_event ext.in_place call db t event_type payload sequence by).work

  -- the database after the request, whether it is answered or refused
  unfoldable pub handle : Ambient → Request → Db → Db
  handle call (run args) db = (perform (create_task ext.conforms ext.digest call db args) db).1
  handle call (cancel wf t by reason) db = (perform (cancel_task call db wf t by reason) db).1
  handle call (pause wf t by reason) db =
      (perform (pause_task settings call db wf t by reason) db).1
  handle call (resume wf t by priority) db =
      (perform (resume_task settings call db wf t by priority) db).1
  handle call (retask wf t by refinement priority key) db =
      (perform (retask_task ext.digest settings call db wf t by refinement priority key) db).1
  handle call (redirect wf t by reason input inherits priority key) db =
      (perform
        (redirect_task ext.digest settings call db wf t by reason input inherits priority key) db).1
  handle call (inject wf t by args) db =
      (perform (inject_context ext.int_of call db wf t by args) db).1
  handle call (post_event t event_type payload sequence by) db =
      (perform (process_sidecar_event ext.in_place call db t event_type payload sequence by) db).1

  -- a sequence of requests, each with its own reading of the clock and its own fresh identifier
  unfoldable pub serve : List (Ambient × Request) → Db → Db
  serve [] db = db
  serve ((call, request) ∷ rest) db = serve rest (handle call request db)
