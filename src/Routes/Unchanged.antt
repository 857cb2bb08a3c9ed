-- ===== src/Routes/Unchanged.antt =====
-- What the status of a response tells about the database.
use fleet_api.Base.{
  ℕ, ◌≡◌, refl, ◌⊎◌, inl, inr, Bool, Option, none, some, ok, err, true, false, leb, not, ◌&&◌, ◌||◌,
  arith,
}
use fleet_api.Errors.{api, Failure, Reply, pause_timeout, error_status_codes}
use fleet_api.Crud.{create_task}
use fleet_api.Settings.{Settings, Ambient}
use fleet_api.Store.{Db, Outcome, perform, after_commit, commit, no_work}
use fleet_api.Api.{
  Externals, Request, run, cancel, pause, resume, retask, redirect, inject, post_event, handle,
}
use fleet_api.Http.{Response, respond, fleet_api_error_handler}
use fleet_api.Routes.Blocks.{answered}
use fleet_api.Routes.Run.{run_response}
use fleet_api.Routes.Succession.{retask_response, redirect_response}
use fleet_api.Routes.Suspension.{cancel_response, pause_response, resume_response}
use fleet_api.Routes.Events.{injection_response, event_response}
use fleet_api.Routes.Answers.{Surroundings, answer, endpoint, finished}
use fleet_api.Routes.Clean.{
  IsClean, cancel_task-IsClean, pause_task-IsClean, resume_task-IsClean, retask_task-IsClean,
  redirect_task-IsClean, inject_context-IsClean, create_task-IsClean, process_sidecar_event-IsClean,
  create_task_replay, retask_task_replay, redirect_task_replay,
}

unchanged :
    {A : Type 0} (o : Outcome A) (d db : Db) → o.work ≡ no_work → commit o.work db ≡ some d → d ≡ db
unfolding commit
unchanged o d db nothing e = ground (arith, nothing)

module _ (site : Surroundings) where
  -- the response to a handler's outcome
  abbrev settled : {A : Type 0} → Outcome A → (A → Db → Response) → Db → Response × Db
  settled o make db = finished site (answered (perform o db) make)

  module _ (silent : ℕ → Bool) (late : silent 408 ≡ false) where
    -- a handler that was committed
    committed_kept :
        {A : Type 0} (reply : Reply A) (make : A → Db → Response) (d db : Db)
        → ((e : Failure) → reply ≡ err e → (d ≡ db) ⊎ (e ≡ api pause_timeout))
        → ((a : A) → reply ≡ ok a → silent (make a d).status_code ≡ true → d ≡ db)
        → silent (finished site (answered (reply, d) make)).0.status_code ≡ true
        → (finished site (answered (reply, d) make)).1 ≡ db
    unfolding respond fleet_api_error_handler error_status_codes
    committed_kept (ok a) make d db clean fine h = fine a refl h
    committed_kept (err e) make d db clean fine h = elim (clean e refl) [
      | inl same ↦ same
      | inr timeout ↦ let h' = rw timeout at h in cc
    ]

    settled_kept :
        {A : Type 0} (o : Outcome A) (make : A → Db → Response) (db : Db)
        → IsClean o
        → ((a : A) (d : Db)
            → o.reply ≡ ok a
            → silent (make a d).status_code ≡ true
            → o.work ≡ no_work)
        → silent (settled o make db).0.status_code ≡ true
        → (settled o make db).1 ≡ db
    unfolding perform
    settled_kept {A} o make db clean fine h = split (commit o.work db) refl h
      where
        split :
            (c : Option Db)
            → commit o.work db ≡ c
            → silent (finished site (answered (after_commit c o db) make)).0.status_code ≡ true
            → (finished site (answered (after_commit c o db) make)).1 ≡ db
        split none e h = refl
        split (some d) e h =
            committed_kept o.reply make d db
              (λ f p. elim (clean f p) [
                | inl nothing ↦ inl (unchanged o d db nothing e)
                | inr timeout ↦ inr timeout
              ])
              (λ a p q. unchanged o d db (fine a d p q) e) h

-- a status from 300 on, but for 408
abbrev pub is_refusal : ℕ → Bool
is_refusal status = leb 300 status && not (leb status 408 && leb 408 status)

-- the statuses that a replay is answered with, too
abbrev pub is_refusal_or_replay : ℕ → Bool
is_refusal_or_replay status = leb status 200 && leb 200 status || is_refusal status

-- The statuses that tell that nothing was written: for the requests that create a task, 200 is a replay.
abbrev pub is_silent : Request → ℕ → Bool
is_silent (run _) status = is_refusal_or_replay status
is_silent (retask _ _ _ _ _ _) status = is_refusal_or_replay status
is_silent (redirect _ _ _ _ _ _ _ _) status = is_refusal_or_replay status
is_silent (cancel _ _ _ _) status = is_refusal status
is_silent (pause _ _ _ _) status = is_refusal status
is_silent (resume _ _ _ _) status = is_refusal status
is_silent (inject _ _ _ _) status = is_refusal status
is_silent (post_event _ _ _ _ _) status = is_refusal status

module _ (ext : Externals) (settings : Settings) (call : Ambient) (db : Db) where
  -- The database after an answer is that after the request.
  pub answer-handle :
      (site : Surroundings) (r : Request)
      → (answer ext settings site call r db).1 ≡ handle ext settings call r db
  unfolding answer endpoint handle
  answer-handle site (run args) = ground arith
  answer-handle site (cancel wf k by reason) = ground arith
  answer-handle site r = ground arith

  -- A response with a status from 300 on, other than 408, means that nothing was written, and so does a
  -- response with the status 200 to a submission, a retask or a redirect.
  pub answer-unchanged :
      (site : Surroundings) (r : Request)
      → is_silent r (answer ext settings site call r db).0.status_code ≡ true
      → (answer ext settings site call r db).1 ≡ db
  unfolding answer endpoint run_response retask_response redirect_response cancel_response
      pause_response resume_response injection_response event_response
  answer-unchanged site (run args) =
      settled_kept site is_refusal_or_replay refl (create_task ext.conforms ext.digest call db args)
        _ db (create_task-IsClean ext call db args)
        (λ d _ p q. create_task_replay ext settings call db args d p (ground arith))
  answer-unchanged site (cancel wf k by reason) =
      settled_kept site is_refusal refl _ _ db
        (cancel_task-IsClean ext settings call db wf k by reason) (λ d _ p q. cc)
  answer-unchanged site (pause wf k by reason) =
      settled_kept site is_refusal refl _ _ db
        (pause_task-IsClean ext settings call db wf k by reason) (λ d _ p q. cc)
  answer-unchanged site (resume wf k by priority) =
      settled_kept site is_refusal refl _ _ db
        (resume_task-IsClean ext settings call db wf k by priority) (λ d _ p q. cc)
  answer-unchanged site (retask wf k by refinement priority key) =
      settled_kept site is_refusal_or_replay refl _ _ db
        (retask_task-IsClean ext settings call db wf k by refinement priority key)
        (λ s _ p q.
          retask_task_replay ext settings call db wf k by refinement priority key s p
            (ground arith))
  answer-unchanged site (redirect wf k by reason input inherits priority key) =
      settled_kept site is_refusal_or_replay refl _ _ db
        (redirect_task-IsClean ext settings call db wf k by reason input inherits priority key)
        (λ s _ p q.
          redirect_task_replay ext settings call db wf k by reason input inherits priority key s p
            (ground arith))
  answer-unchanged site (inject wf k by args) =
      settled_kept site is_refusal refl _ _ db
        (inject_context-IsClean ext settings call db wf k by args) (λ d _ p q. cc)
  answer-unchanged site (post_event k event_type payload n by) =
      settled_kept site is_refusal refl _ _ db
        (process_sidecar_event-IsClean ext call db k event_type by payload n) (λ d _ p q. cc)
