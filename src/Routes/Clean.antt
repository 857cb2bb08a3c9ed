-- ===== src/Routes/Clean.antt =====
-- What a handler has written when it raises, or answers with a replay: nothing, but for one case.
use fleet_api.Base.{ℕ, ◌≡◌, ◌⊎◌, inl, String, Bool, Option, ok, err, true, arith}
use fleet_api.Errors.{api, Failure, pause_timeout}
use fleet_api.Json.{Dict}
use fleet_api.Crud.{NewTask, Dispatch, create_task, create_new, replay_existing}
use fleet_api.Lifecycle.Cancel.{cancel_task}
use fleet_api.Lifecycle.Pause.{pause_task}
use fleet_api.Lifecycle.Resume.{resume_task, auto_cancel, continue_task}
use fleet_api.Lifecycle.Successor.{Succession}
use fleet_api.Lifecycle.Retask.{retask_task, retask_new}
use fleet_api.Lifecycle.Redirect.{redirect_task, redirect_new}
use fleet_api.Context.{Injection, inject_context}
use fleet_api.Sidecar.{process_sidecar_event}
use fleet_api.Settings.{Settings, Ambient}
use fleet_api.Store.{Db, Outcome, no_work}
use fleet_api.Api.{Externals}

-- what a handler that raises has committed: nothing, but where a pause has run out
abbrev pub IsClean : {A : Type 0} → Outcome A → Type 0
IsClean o = (e : Failure) → o.reply ≡ err e → (o.work ≡ no_work) ⊎ (e ≡ api pause_timeout)

module _ (ext : Externals) (settings : Settings) (call : Ambient) (db : Db) (wf k by : String) where
  pub cancel_task-IsClean : (reason : Option String) → IsClean (cancel_task call db wf k by reason)
  unfolding cancel_task
  cancel_task-IsClean reason e p = inl (ground arith)

  pub pause_task-IsClean :
      (reason : Option String) → IsClean (pause_task settings call db wf k by reason)
  unfolding pause_task
  pause_task-IsClean reason e p = inl (ground arith)

  pub resume_task-IsClean :
      (priority : Option String) → IsClean (resume_task settings call db wf k by priority)
  unfolding resume_task auto_cancel continue_task
  resume_task-IsClean priority e p = ground arith

  pub retask_task-IsClean :
      (refinement : Dict) (priority key : Option String)
      → IsClean (retask_task ext.digest settings call db wf k by refinement priority key)
  unfolding retask_task retask_new
  retask_task-IsClean refinement priority key e p = inl (ground arith)

  pub redirect_task-IsClean :
      (reason : String) (input : Dict) (inherits : Bool) (priority key : Option String)
      → IsClean
          (redirect_task ext.digest settings call db wf k by reason input inherits priority key)
  unfolding redirect_task redirect_new
  redirect_task-IsClean reason input inherits priority key e p = inl (ground arith)

  pub inject_context-IsClean :
      (args : Injection) → IsClean (inject_context ext.int_of call db wf k by args)
  unfolding inject_context
  inject_context-IsClean args e p = inl (ground arith)

pub create_task-IsClean :
    (ext : Externals) (call : Ambient) (db : Db) (args : NewTask)
    → IsClean (create_task ext.conforms ext.digest call db args)
unfolding create_task create_new replay_existing
create_task-IsClean ext call db args e p = inl (ground arith)

pub process_sidecar_event-IsClean :
    (ext : Externals) (call : Ambient) (db : Db) (k event_type by : String) (payload : Dict) (n : ℕ)
    → IsClean (process_sidecar_event ext.in_place call db k event_type payload n by)
unfolding process_sidecar_event
process_sidecar_event-IsClean ext call db k event_type by payload n e p = inl (ground arith)

module _ (ext : Externals) (settings : Settings) (call : Ambient) (db : Db) where
  pub create_task_replay :
      (args : NewTask) (d : Dispatch)
      → (create_task ext.conforms ext.digest call db args).reply ≡ ok d
      → d.is_replay ≡ true
      → (create_task ext.conforms ext.digest call db args).work ≡ no_work
  unfolding create_task create_new replay_existing
  create_task_replay args d h replay = ground arith

  pub retask_task_replay :
      (wf k by : String) (refinement : Dict) (priority key : Option String) (s : Succession)
      → (retask_task ext.digest settings call db wf k by refinement priority key).reply ≡ ok s
      → s.is_replay ≡ true
      → (retask_task ext.digest settings call db wf k by refinement priority key).work ≡ no_work
  unfolding retask_task retask_new
  retask_task_replay wf k by refinement priority key s h replay = ground arith

  pub redirect_task_replay :
      (wf k by reason : String) (input : Dict) (inherits : Bool) (priority key : Option String)
      (s : Succession)
      → (redirect_task ext.digest settings call db wf k by reason input inherits priority key).reply
        ≡ ok s
      → s.is_replay ≡ true
      → (redirect_task ext.digest settings call db wf k by reason input inherits priority key).work
        ≡ no_work
  unfolding redirect_task redirect_new
  redirect_task_replay wf k by reason input inherits priority key s h replay = ground arith
