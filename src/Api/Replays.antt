-- ===== src/Api/Replays.antt =====
-- Retasking and redirecting again under the same idempotency key.
use fleet_api.Base.{
  ◌≡◌, refl, false, Bool, Option, some, List, ◌∷◌, String, ok, Result, ◌>>=◌, err, arith,
}
use fleet_api.Errors.{api, ErrorCode, retask_not_reviewable, redirect_not_possible}
use fleet_api.Json.{Dict}
use fleet_api.Task.Status.{
  retasked, redirected, valid_transitions, is_terminal, is_reviewable, is_in_flight, is_superseded,
}
use fleet_api.Task.Row.{Task, transition_to}
use fleet_api.Task.Evolution.{moved}
use fleet_api.Settings.{Settings, Ambient}
use fleet_api.Store.{Db, Outcome, perform, no_work, settle}
use fleet_api.Lifecycle.Access.{fetch_permitted}
use fleet_api.Lifecycle.Successor.{Succession, resolve_priority}
use fleet_api.Lifecycle.Retask.{retask_task, retask_new}
use fleet_api.Lifecycle.Redirect.{redirect_task, redirect_new}
use fleet_api.Idempotency.{check_optional_key, check_idempotency}
use fleet_api.Api.{Externals, Request, retask, redirect, handle, serve, work_of}
use fleet_api.Api.Superseded.{perform-eq-ok, superseded_later}

module _ (ext : Externals) (settings : Settings) (call : Ambient) (db : Db) (wf k by : String) where
  -- A replay apart, an answer comes with the original moved to its final state.
  pub retask_task-moves :
      (refinement : Dict) (priority key : Option String) (s : Succession) (t : Task)
      → (retask_task ext.digest settings call db wf k by refinement priority key).reply ≡ ok s
      → s.is_replay ≡ false
      → fetch_permitted db wf k by ≡ ok t
      → (retask_task ext.digest settings call db wf k by refinement priority key).work.updated
        ≡ some (moved call.now retasked t)
  unfolding retask_task retask_new resolve_priority check_optional_key check_idempotency
      transition_to valid_transitions is_terminal is_reviewable
  retask_task-moves refinement priority key s t h f may = ground (arith, may)

  redirect_task-moves :
      (reason : String) (input : Dict) (inherits : Bool) (priority key : Option String)
      (s : Succession) (t : Task)
      → (redirect_task ext.digest settings call db wf k by reason input inherits priority key).reply
        ≡ ok s
      → s.is_replay ≡ false
      → fetch_permitted db wf k by ≡ ok t
      → (redirect_task ext.digest settings call db wf k by reason input inherits priority
          key).work.updated
        ≡ some (moved call.now redirected t)
  unfolding redirect_task redirect_new resolve_priority check_optional_key check_idempotency
      transition_to valid_transitions is_terminal is_in_flight
  redirect_task-moves reason input inherits priority key s t h f may = ground (arith, may)

  -- an answer means that the caller was permitted
  answered_permitted :
      {A : Type 0} (step : Result ErrorCode Task) (rest : Task → Result ErrorCode (Outcome A))
      (a : A)
      → (settle (step >>= rest)).reply ≡ ok a
      → (t : Task) × (step ≡ ok t)
  answered_permitted (err e) rest a h = absurd (ground arith)
  answered_permitted (ok t) rest a h = (t, refl)

  pub retask_task_permitted :
      (refinement : Dict) (priority key : Option String) (s : Succession)
      → (retask_task ext.digest settings call db wf k by refinement priority key).reply ≡ ok s
      → (t : Task) × (fetch_permitted db wf k by ≡ ok t)
  unfolding retask_task
  retask_task_permitted refinement priority key s h =
      answered_permitted (fetch_permitted db wf k by) _ s h

  pub redirect_task_permitted :
      (reason : String) (input : Dict) (inherits : Bool) (priority key : Option String)
      (s : Succession)
      → (redirect_task ext.digest settings call db wf k by reason input inherits priority key).reply
        ≡ ok s
      → (t : Task) × (fetch_permitted db wf k by ≡ ok t)
  unfolding redirect_task
  redirect_task_permitted reason input inherits priority key s h =
      answered_permitted (fetch_permitted db wf k by) _ s h

  retask_task_refused :
      (now : Ambient) (db' : Db) (refinement : Dict) (priority key : Option String) (t : Task)
      → fetch_permitted db' wf k by ≡ ok t
      → t.status ≡ retasked
      → retask_task ext.digest settings now db' wf k by refinement priority key
        ≡ record { reply = err (api retask_not_reviewable); work = no_work }
  unfolding retask_task is_reviewable
  retask_task_refused now db' refinement priority key t may closed = ground (arith, may)

  redirect_task_refused :
      (now : Ambient) (db' : Db) (reason : String) (input : Dict) (inherits : Bool)
      (priority key : Option String) (t : Task)
      → fetch_permitted db' wf k by ≡ ok t
      → t.status ≡ redirected
      → redirect_task ext.digest settings now db' wf k by reason input inherits priority key
        ≡ record { reply = err (api redirect_not_possible); work = no_work }
  unfolding redirect_task is_in_flight
  redirect_task_refused now db' reason input inherits priority key t may closed =
      ground (arith, may)

  -- Once a retask has created its task, it is never replayed: whatever is served since, a retask of the
  -- same task by the same caller, under the same idempotency key or another, is refused with
  -- RETASK_NOT_REVIEWABLE and writes nothing.
  pub retask_task-again :
      (refinement refinement' : Dict) (priority priority' key key' : Option String) (s : Succession)
      (rs : List (Ambient × Request)) (call' : Ambient)
      → (perform (retask_task ext.digest settings call db wf k by refinement priority key) db).0
        ≡ ok s
      → s.is_replay ≡ false
      → retask_task ext.digest settings call'
          (serve ext settings ((call, retask wf k by refinement priority key) ∷ rs) db)
          wf
          k
          by
          refinement'
          priority'
          key'
        ≡ record { reply = err (api retask_not_reviewable); work = no_work }
  unfolding work_of handle is_superseded
  retask_task-again refinement refinement' priority priority' key key' s rs call' h f =
      let (told, done) =
        perform-eq-ok (retask_task ext.digest settings call db wf k by refinement priority key) db s
          h in
      let (t, may) = retask_task_permitted refinement priority key s told in
      let (t', again, closed) =
        superseded_later ext settings call db wf k by retasked
          (retask wf k by refinement priority key) t rs refl may
          (retask_task-moves refinement priority key s t told f may) done in
      retask_task_refused call'
        (serve ext settings ((call, retask wf k by refinement priority key) ∷ rs) db) refinement'
        priority' key' t' again closed

  -- Once a redirect has created its task, it is never replayed: whatever is served since, a redirect
  -- of the same task by the same caller, under the same idempotency key or another, is refused with
  -- REDIRECT_NOT_POSSIBLE and writes nothing.
  pub redirect_task-again :
      (reason reason' : String) (input input' : Dict) (inherits inherits' : Bool)
      (priority priority' key key' : Option String) (s : Succession) (rs : List (Ambient × Request))
      (call' : Ambient)
      → (perform
          (redirect_task ext.digest settings call db wf k by reason input inherits priority key)
          db).0
        ≡ ok s
      → s.is_replay ≡ false
      → redirect_task ext.digest settings call'
          (serve ext settings ((call, redirect wf k by reason input inherits priority key) ∷ rs) db)
          wf
          k
          by
          reason'
          input'
          inherits'
          priority'
          key'
        ≡ record { reply = err (api redirect_not_possible); work = no_work }
  unfolding work_of handle is_superseded
  redirect_task-again reason reason' input input' inherits inherits' priority priority' key key' s
        rs call' h f =
      let o =
        redirect_task ext.digest settings call db wf k by reason input inherits priority key in
      let (told, done) = perform-eq-ok o db s h in
      let (t, may) = redirect_task_permitted reason input inherits priority key s told in
      let (t', again, closed) =
        superseded_later ext settings call db wf k by redirected
          (redirect wf k by reason input inherits priority key) t rs refl may
          (redirect_task-moves reason input inherits priority key s t told f may) done in
      redirect_task_refused call'
        (serve ext settings ((call, redirect wf k by reason input inherits priority key) ∷ rs) db)
        reason' input' inherits' priority' key' t' again closed
