-- ===== src/Api/Authority.antt =====
-- Who may change the database.
use fleet_api.Base.{
  ◌≡◌, refl, Bool, true, false, ◌&&◌, ◌||◌, Option, none, some, Result, ok, err, ◌>>=◌, String,
  ◌==◌, arith,
}
use fleet_api.Errors.{ErrorCode}
use fleet_api.Workflow.{Workflow}
use fleet_api.Task.Row.{Task}
use fleet_api.Settings.{Settings, Ambient}
use fleet_api.Store.{Db, Outcome, find_task, find_workflow, perform, settle}
use fleet_api.Lifecycle.Access.{fetch_permitted}
use fleet_api.Lifecycle.Cancel.{cancel_task}
use fleet_api.Lifecycle.Pause.{pause_task}
use fleet_api.Lifecycle.Resume.{resume_task}
use fleet_api.Lifecycle.Retask.{retask_task}
use fleet_api.Lifecycle.Redirect.{redirect_task}
use fleet_api.Context.{inject_context}
use fleet_api.Sidecar.{process_sidecar_event}
use fleet_api.Api.Commits.{perform-no_work}
use fleet_api.Api.{
  Externals, Request, run, cancel, pause, resume, retask, redirect, inject, post_event, handle,
}

-- the caller is the task's principal or the owner of its workflow, which the path names
abbrev pub is_in_charge : String → String → Option Workflow → Option Task → Bool
is_in_charge workflow_id caller (some w) (some t) =
    t.workflow_id == workflow_id && (caller == t.principal_agent_id || caller == w.owner_agent_id)
is_in_charge workflow_id caller none _ = false
is_in_charge workflow_id caller (some w) none = false

abbrev pub leads : Db → String → String → String → Bool
leads db workflow_id task_id caller =
    is_in_charge workflow_id caller (find_workflow workflow_id db) (find_task task_id db)

abbrev pub executes : String → Option Task → Bool
executes agent none = false
executes agent (some t) = elim t.executor_agent_id [ none ↦ false | some e ↦ e == agent ]

-- Who may send what: anyone a new task, the principal and the owner what steers it, the executor its
-- events.
unfoldable pub may_send : Db → Request → Bool
may_send db (run args) = true
may_send db (cancel wf t by reason) = leads db wf t by
may_send db (pause wf t by reason) = leads db wf t by
may_send db (resume wf t by priority) = leads db wf t by
may_send db (retask wf t by refinement priority key) = leads db wf t by
may_send db (redirect wf t by reason input inherits priority key) = leads db wf t by
may_send db (inject wf t by args) = leads db wf t by
may_send db (post_event t event_type payload n by) = executes by (find_task t db)

-- the code of the refusal
abbrev IsBarred : {A : Type 0} → Result ErrorCode A → Type 0
IsBarred r = (e : ErrorCode) × (r ≡ err e)

fetch_permitted-IsBarred :
    (db : Db) (wf k by : String) → leads db wf k by ≡ false → IsBarred (fetch_permitted db wf k by)
unfolding fetch_permitted
fetch_permitted-IsBarred db wf k by h = split (fetch_permitted db wf k by) refl
  where
    split : (r : Result ErrorCode Task) → fetch_permitted db wf k by ≡ r → IsBarred r
    split (err e) eq = (e, refl)
    split (ok t) eq = absurd (ground arith)

-- an operation that begins with the three checks
settle-barred :
    {A : Type 0} (db : Db) (wf k by : String) (rest : Task → Result ErrorCode (Outcome A))
    → leads db wf k by ≡ false
    → (perform (settle (fetch_permitted db wf k by >>= rest)) db).1 ≡ db
settle-barred db wf k by rest h =
    let (e, barred) = fetch_permitted-IsBarred db wf k by h in perform-no_work _ db (rw barred refl)

module _ (ext : Externals) (settings : Settings) (call : Ambient) (db : Db) where
  -- A request from an agent that may not send it, that is neither the task's principal nor the
  -- workflow's owner, or for an event not the executor, changes nothing in the database.
  pub handle-barred : (r : Request) → may_send db r ≡ false → handle ext settings call r db ≡ db
  unfolding handle may_send cancel_task pause_task resume_task retask_task redirect_task
      inject_context process_sidecar_event
  handle-barred (run args) h = cc
  handle-barred (cancel wf k by reason) h = settle-barred db wf k by _ h
  handle-barred (pause wf k by reason) h = settle-barred db wf k by _ h
  handle-barred (resume wf k by priority) h = settle-barred db wf k by _ h
  handle-barred (retask wf k by refinement priority key) h = settle-barred db wf k by _ h
  handle-barred (redirect wf k by reason input inherits priority key) h =
      settle-barred db wf k by _ h
  handle-barred (inject wf k by args) h =
      let (e, barred) = fetch_permitted-IsBarred db wf k by h in
      perform-no_work _ db (rw barred refl)
  handle-barred (post_event k event_type payload n by) h = perform-no_work _ db (ground arith)
