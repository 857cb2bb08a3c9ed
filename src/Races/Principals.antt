-- ===== src/Races/Principals.antt =====
-- Two requests of principals for one task that overlap.
use fleet_api.Base.{
  ◌+◌, ◌≡◌, refl, sym, String, Bool, true, false, ◌⊎◌, inl, inr, Option, none, some, Result, ok,
  err, List, [], ◌∷◌, ◌++◌, eq_refl, arith, subst, Bool-cases,
}
use fleet_api.Errors.{ErrorCode, integrity}
use fleet_api.Base.Int.{ℤ}
use fleet_api.Json.{Json, Dict}
use fleet_api.Task.Row.{Task, TaskEvent, transition_to}
use fleet_api.Settings.{Settings, Ambient}
use fleet_api.Store.{
  Db, Work, Outcome, perform, commit, id-find, has_number, has_number-append_left, are_numbers_free,
  are_numbers_free-taken, is_added_insertable, max_sequence,
}
use fleet_api.Lifecycle.Access.{fetch_permitted, fetch_permitted-eq-ok}
use fleet_api.Lifecycle.Cancel.{cancel_task, cancelled_event}
use fleet_api.Lifecycle.Pause.{pause_task, pause_event}
use fleet_api.Lifecycle.Resume.{
  resume_task, continue_task, auto_cancel, with_priority, resume_event,
}
use fleet_api.Lifecycle.Retask.{retask_task, retask_new, retasked_event}
use fleet_api.Lifecycle.Redirect.{redirect_task, redirect_new, redirected_event}
use fleet_api.Lifecycle.Successor.{resolve_priority}
use fleet_api.Context.{Injection, inject_context, context_event}
use fleet_api.Api.{
  Externals, Request, run, cancel, pause, resume, retask, redirect, inject, post_event, work_of,
}

-- the task that a principal's request is about
abbrev pub target : Request → Option String
target (run _) = none
target (cancel wf t by reason) = some t
target (pause wf t by reason) = some t
target (resume wf t by priority) = some t
target (retask wf t by refinement priority key) = some t
target (redirect wf t by reason input inherits priority key) = some t
target (inject wf t by args) = some t
target (post_event t event_type payload sequence by) = none

some-inj : {a b : String} → some a ≡ some b → a ≡ b
some-inj h = cc

-- the handler has added an event
abbrev pub has_events : Work → Bool
has_events w = elim w.new_events [ [] ↦ false | _ ∷ _ ↦ true ]

module _ (db : Db) (k : String) where
  -- no event, or the task's next number
  abbrev IsNext : List TaskEvent → Type 0
  IsNext es = (es ≡ []) ⊎ (has_number k (max_sequence k db.events + 1) es ≡ true)

  fetched :
      (wf by : String)
      → ((e : ErrorCode) × (fetch_permitted db wf k by ≡ err e))
        ⊎ ((t : Task) × (fetch_permitted db wf k by ≡ ok t) × (t.id ≡ k))
  fetched wf by = split (fetch_permitted db wf k by) refl
    where
      split :
          (r : Result ErrorCode Task)
          → fetch_permitted db wf k by ≡ r
          → ((e : ErrorCode) × (fetch_permitted db wf k by ≡ err e))
            ⊎ ((t : Task) × (fetch_permitted db wf k by ≡ ok t) × (t.id ≡ k))
      split (err e) h = inl (e, h)
      split (ok t) h =
          inr (
            t,
            h,
            id-find (λ (x : Task). x.id) k db.tasks t (fetch_permitted-eq-ok db wf k by t h).0,
          )

  module _ (call : Ambient) (wf by : String) where
    cancel-IsNext :
        (reason : Option String) → IsNext (cancel_task call db wf k by reason).work.new_events
    unfolding cancel_task cancelled_event transition_to has_number
    cancel-IsNext reason = elim (fetched wf by) [
      | inl (e, h) ↦ inl (ground (arith, h))
      | inr (t, h, id) ↦ ground (arith, h, id, eq_refl k)
    ]

    pause-IsNext :
        (settings : Settings) (reason : Option String)
        → IsNext (pause_task settings call db wf k by reason).work.new_events
    unfolding pause_task pause_event transition_to has_number
    pause-IsNext settings reason = elim (fetched wf by) [
      | inl (e, h) ↦ inl (ground (arith, h))
      | inr (t, h, id) ↦ ground (arith, h, id, eq_refl k)
    ]

    resume-IsNext :
        (settings : Settings) (priority : Option String)
        → IsNext (resume_task settings call db wf k by priority).work.new_events
    unfolding resume_task continue_task auto_cancel with_priority resume_event transition_to
        has_number
    resume-IsNext settings priority = elim (fetched wf by) [
      | inl (e, h) ↦ inl (ground (arith, h))
      | inr (t, h, id) ↦ ground (arith, h, id, eq_refl k)
    ]

    retask-IsNext :
        (digest : Dict → String) (settings : Settings) (refinement : Dict)
        (priority key : Option String)
        → IsNext
            (retask_task digest settings call db wf k by refinement priority key).work.new_events
    unfolding retask_task retask_new retasked_event resolve_priority transition_to has_number
    retask-IsNext digest settings refinement priority key = elim (fetched wf by) [
      | inl (e, h) ↦ inl (ground (arith, h))
      | inr (t, h, id) ↦ ground (arith, h, id, eq_refl k)
    ]

    redirect-IsNext :
        (digest : Dict → String) (settings : Settings) (reason : String) (input : Dict)
        (inherits : Bool) (priority key : Option String)
        → IsNext
            (redirect_task digest settings call db wf k by reason input inherits priority
              key).work.new_events
    unfolding redirect_task redirect_new redirected_event resolve_priority transition_to has_number
    redirect-IsNext digest settings reason input inherits priority key = elim (fetched wf by) [
      | inl (e, h) ↦ inl (ground (arith, h))
      | inr (t, h, id) ↦ ground (arith, h, id, eq_refl k)
    ]

    inject-IsNext :
        (int_of : Json → Option ℤ) (args : Injection)
        → IsNext (inject_context int_of call db wf k by args).work.new_events
    unfolding inject_context context_event has_number
    inject-IsNext int_of args = elim (fetched wf by) [
      | inl (e, h) ↦ inl (ground (arith, h))
      | inr (t, h, id) ↦ ground (arith, h, id, eq_refl k)
    ]

module _ (ext : Externals) (settings : Settings) (call call' : Ambient) (db : Db) (k : String) where
  work_of-IsNext :
      (now : Ambient) (r : Request)
      → target r ≡ some k
      → IsNext db k (work_of ext settings now r db).new_events
  unfolding work_of
  work_of-IsNext now (run _) h = cc
  work_of-IsNext now (cancel wf t by reason) h =
      subst (λ j. IsNext db k (cancel_task now db wf j by reason).work.new_events)
        (sym (some-inj h)) (cancel-IsNext db k now wf by reason)
  work_of-IsNext now (pause wf t by reason) h =
      subst (λ j. IsNext db k (pause_task settings now db wf j by reason).work.new_events)
        (sym (some-inj h)) (pause-IsNext db k now wf by settings reason)
  work_of-IsNext now (resume wf t by priority) h =
      subst (λ j. IsNext db k (resume_task settings now db wf j by priority).work.new_events)
        (sym (some-inj h)) (resume-IsNext db k now wf by settings priority)
  work_of-IsNext now (retask wf t by d p key) h =
      subst
        (λ j. IsNext db k (retask_task ext.digest settings now db wf j by d p key).work.new_events)
        (sym (some-inj h)) (retask-IsNext db k now wf by ext.digest settings d p key)
  work_of-IsNext now (redirect wf t by reason d i p key) h =
      subst
        (λ j.
          IsNext db k
            (redirect_task ext.digest settings now db wf j by reason d i p key).work.new_events)
        (sym (some-inj h)) (redirect-IsNext db k now wf by ext.digest settings reason d i p key)
  work_of-IsNext now (inject wf t by args) h =
      subst (λ j. IsNext db k (inject_context ext.int_of now db wf j by args).work.new_events)
        (sym (some-inj h)) (inject-IsNext db k now wf by ext.int_of args)
  work_of-IsNext now (post_event _ _ _ _ _) h = cc

  numbered :
      (now : Ambient) (r : Request)
      → target r ≡ some k
      → has_events (work_of ext settings now r db) ≡ true
      → has_number k (max_sequence k db.events + 1) (work_of ext settings now r db).new_events
        ≡ true
  numbered now r h some_event = elim (work_of-IsNext now r h) [
    | inl e ↦ ground (arith, e)
    | inr e ↦ e
  ]

  events_after : (w : Work) (d : Db) → commit w db ≡ some d → d.events ≡ w.new_events ++ db.events
  unfolding commit
  events_after w d h = ground arith

  refused_perform :
      {A : Type 0} (o : Outcome A) (d : Db)
      → are_numbers_free o.work.new_events d.events ≡ false
      → perform o d ≡ (err integrity, d)
  unfolding perform commit
  refused_perform o d h = elim (Bool-cases (is_added_insertable o.work.added d)) [
    | inl e ↦ rw (e, h) refl
    | inr e ↦ rw e refl
  ]

  pub work_of-overlapping :
      {A : Type 0} (r r' : Request) (d : Db) (o : Outcome A)
      → target r ≡ some k
      → target r' ≡ some k
      → has_events (work_of ext settings call r db) ≡ true
      → has_events (work_of ext settings call' r' db) ≡ true
      → commit (work_of ext settings call r db) db ≡ some d
      → o.work ≡ work_of ext settings call' r' db
      → perform o d ≡ (err integrity, d)
  work_of-overlapping r r' d o h h' e e' done same =
      let n = max_sequence k db.events + 1 in
      let first : has_number k n d.events ≡ true =
        rw (events_after _ d done) (has_number-append_left k n _ db.events (numbered call r h e)) in
      let second : has_number k n o.work.new_events ≡ true = rw same (numbered call' r' h' e') in
      refused_perform o d (are_numbers_free-taken k n o.work.new_events d.events second first)
