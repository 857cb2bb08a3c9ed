-- ===== src/Routes/Answers.antt =====
-- A request from the call of its handler to the response: the handler's work is committed, and the body
-- is built over the database after it, or the exception goes to its handler of middleware/errors.py.
use fleet_api.Base.{ℕ, String, Option, none, ok, err}
use fleet_api.Errors.{ErrorCode, Failure, api, integrity, uncaught, Reply, FleetApiError}
use fleet_api.Json.{Json, Dict}
use fleet_api.Settings.{Settings, Ambient}
use fleet_api.Store.{Db, perform}
use fleet_api.Crud.{NewTask, create_task}
use fleet_api.Lifecycle.Cancel.{cancel_task}
use fleet_api.Lifecycle.Pause.{pause_task}
use fleet_api.Lifecycle.Resume.{resume_task}
use fleet_api.Lifecycle.Retask.{retask_task}
use fleet_api.Lifecycle.Redirect.{redirect_task}
use fleet_api.Context.{inject_context}
use fleet_api.Sidecar.{process_sidecar_event}
use fleet_api.Api.{
  Externals, Request, run, cancel, pause, resume, retask, redirect, inject, post_event,
}
use fleet_api.Http.{Response, Raised, fleet_api_error, unexpected, respond}
use fleet_api.Routes.Blocks.{answered}
use fleet_api.Routes.Run.{effective_args, run_response}
use fleet_api.Routes.Succession.{retask_response, redirect_response}
use fleet_api.Routes.Suspension.{cancel_response, pause_response, resume_response}
use fleet_api.Routes.Events.{injection_response, event_response}

-- The wording of the program's errors, and what the responses take from outside: the number of the
-- newest row of the events, and Python's `str`.
pub record Surroundings : Type 0 where
  pub message : ErrorCode → String
  pub suggestion : ErrorCode → Option String
  pub links : ErrorCode → Option Dict
  pub newest_event_id : Db → ℕ
  pub str_of : Json → String

-- no `raise` of the program gives a status of its own
abbrev pub worded : Surroundings → ErrorCode → FleetApiError
worded site code = record {
  code = code;
  message = site.message code;
  suggestion = site.suggestion code;
  links = site.links code;
  http_status = none;
}

abbrev pub raised : Surroundings → Failure → Raised
raised site (api code) = fleet_api_error (worded site code)
raised site integrity = unexpected
raised site uncaught = unexpected

abbrev pub finished : Surroundings → Reply Response × Db → Response × Db
finished site (ok response, db) = (response, db)
finished site (err e, db) = (respond site.str_of "" "" (raised site e), db)

module _ (ext : Externals) (settings : Settings) (site : Surroundings) where
  unfoldable pub endpoint : Ambient → Request → Db → Reply Response × Db
  endpoint call (run args) db =
      answered (perform (create_task ext.conforms ext.digest call db args) db)
        λ d db'. run_response args.idempotency_key d
  endpoint call (cancel wf t by reason) db =
      answered (perform (cancel_task call db wf t by reason) db)
        λ task db'. cancel_response by reason task
  endpoint call (pause wf t by reason) db =
      answered (perform (pause_task settings call db wf t by reason) db)
        λ p db'. pause_response settings p.0
  endpoint call (resume wf t by priority) db =
      answered (perform (resume_task settings call db wf t by priority) db)
        λ p db'. resume_response p.0 p.1
  endpoint call (retask wf t by refinement priority key) db =
      answered
        (perform (retask_task ext.digest settings call db wf t by refinement priority key) db)
        λ s db'. retask_response wf key s db'
  endpoint call (redirect wf t by reason input inherits priority key) db =
      answered
        (perform
          (redirect_task ext.digest settings call db wf t by reason input inherits priority key) db)
        λ s db'. redirect_response wf key s db'
  endpoint call (inject wf t by args) db =
      answered (perform (inject_context ext.int_of call db wf t by args) db)
        λ e db'. injection_response call wf t args
  endpoint call (post_event t event_type payload n by) db =
      answered (perform (process_sidecar_event ext.in_place call db t event_type payload n by) db)
        λ r db'. event_response (site.newest_event_id db') r

  -- the response and the database after it
  unfoldable pub answer : Ambient → Request → Db → Response × Db
  unfolding endpoint respond
  answer call request db = finished site (endpoint call request db)

  -- `run_task` with the key of the header and the body
  unfoldable pub run_endpoint : Ambient → Option String → NewTask → Db → Reply Response × Db
  unfolding endpoint
  run_endpoint call header body db = endpoint call (run (effective_args header body)) db
