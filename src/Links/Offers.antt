-- ===== src/Links/Offers.antt =====
-- What the links promise, compared with what the operations accept.
use fleet_api.Base.{
  String, ◌≡◌, Bool, true, false, not, ◌&&◌, Option, none, some, ok, err, is_ok, is_some, arith,
}
use fleet_api.Errors.{Reply, api, task_not_paused, retask_not_reviewable, redirect_not_possible}
use fleet_api.Json.{Json, Dict, get, put}
use fleet_api.Task.Status.{valid_transitions, is_running, is_paused, is_reviewable, is_in_flight}
use fleet_api.Task.Row.{Task, transition_to}
use fleet_api.Settings.{Settings, Ambient}
use fleet_api.Store.{Db}
use fleet_api.Lifecycle.Access.{fetch_permitted}
use fleet_api.Base.Int.{ℤ}
use fleet_api.Lifecycle.Successor.{resolve_priority}
use fleet_api.Idempotency.{check_optional_key, check_idempotency}
use fleet_api.Lifecycle.Cancel.{cancel_task}
use fleet_api.Lifecycle.Pause.{pause_task}
use fleet_api.Lifecycle.Resume.{resume_task, auto_cancel, continue_task, with_priority}
use fleet_api.Lifecycle.Retask.{retask_task, retask_new}
use fleet_api.Lifecycle.Redirect.{redirect_task, redirect_new}
use fleet_api.Context.{Injection, inject_context, get_max_context_sequence, is_at_most}
use fleet_api.Api.{Externals}
use fleet_api.Links.{build_task_links, add_links, status_action_links}

-- the detail response of a task carries the link
abbrev pub has_link : String → Task → Bool
has_link action t = is_some (get action (build_task_links t.id t.workflow_id t.status))

-- the refusals that are due to the task's state
abbrev pub is_not_paused : {A : Type 0} → Reply A → Bool
is_not_paused (err (api task_not_paused)) = true
is_not_paused _ = false

abbrev pub is_not_reviewable : {A : Type 0} → Reply A → Bool
is_not_reviewable (err (api retask_not_reviewable)) = true
is_not_reviewable _ = false

abbrev pub is_not_redirectable : {A : Type 0} → Reply A → Bool
is_not_redirectable (err (api redirect_not_possible)) = true
is_not_redirectable _ = false

-- the injection's number is above the last one that can be read
abbrev pub is_new_number : (Json → Option ℤ) → String → Db → Injection → Bool
is_new_number int_of k db args = elim (get_max_context_sequence int_of k db.events) [
  | none ↦ false
  | some last ↦ not (is_at_most args.sequence last)
]

module _ (call : Ambient) (db : Db) (wf k caller : String) (t : Task)
    (permitted : fetch_permitted db wf k caller ≡ ok t) where
  cancel_offered :
      (reason : Option String)
      → is_ok (cancel_task call db wf k caller reason).reply ≡ has_link "cancel" t
  unfolding cancel_task transition_to valid_transitions build_task_links add_links
      status_action_links get put
  cancel_offered reason = ground (arith, permitted)

  pause_offered :
      (settings : Settings) (reason : Option String)
      → is_ok (pause_task settings call db wf k caller reason).reply ≡ has_link "pause" t
  unfolding pause_task transition_to valid_transitions is_running build_task_links add_links
      status_action_links get put
  pause_offered settings reason = ground (arith, permitted)

  resume_offered :
      (settings : Settings) (priority : Option String)
      → is_not_paused (resume_task settings call db wf k caller priority).reply
        ≡ not (has_link "resume" t)
  unfolding resume_task auto_cancel continue_task with_priority transition_to valid_transitions
      is_paused build_task_links add_links status_action_links get put
  resume_offered settings priority = ground (arith, permitted)

  redirect_offered :
      (digest : Dict → String) (settings : Settings) (reason : String) (input : Dict)
      (inherits : Bool) (priority key : Option String)
      → is_not_redirectable
          (redirect_task digest settings call db wf k caller reason input inherits priority
            key).reply
        ≡ not (has_link "redirect" t)
  unfolding redirect_task redirect_new resolve_priority check_optional_key check_idempotency
      transition_to valid_transitions is_in_flight build_task_links add_links status_action_links
      get put
  redirect_offered digest settings reason input inherits priority key = ground (arith, permitted)

  retask_offered :
      (digest : Dict → String) (settings : Settings) (refinement : Dict)
      (priority key : Option String)
      → is_not_reviewable
          (retask_task digest settings call db wf k caller refinement priority key).reply
        ≡ not (has_link "retask" t)
  unfolding retask_task retask_new resolve_priority check_optional_key check_idempotency
      transition_to valid_transitions is_reviewable build_task_links add_links status_action_links
      get put
  retask_offered digest settings refinement priority key = ground (arith, permitted)

  context_offered :
      (int_of : Json → Option ℤ) (args : Injection)
      → is_ok (inject_context int_of call db wf k caller args).reply
        ≡ (has_link "context" t && is_new_number int_of k db args)
  unfolding inject_context is_in_flight build_task_links add_links status_action_links get put
  context_offered int_of args = ground (arith, permitted)

  -- For a caller who may act on a task, the links of the task tell the truth: cancel and pause succeed
  -- exactly if they are offered; resume, redirect and retask are refused for the task's state
  -- exactly if they are not offered; and context is accepted exactly if it is offered and its number is
  -- above the last one.
  pub build_task_links_lem :
      (ext : Externals) (settings : Settings) (reason priority key : Option String) (cause : String)
      (input : Dict) (inherits : Bool) (args : Injection)
      → (is_ok (cancel_task call db wf k caller reason).reply ≡ has_link "cancel" t)
        × (is_ok (pause_task settings call db wf k caller reason).reply ≡ has_link "pause" t)
        × (is_not_paused (resume_task settings call db wf k caller priority).reply
            ≡ not (has_link "resume" t))
        × (is_not_redirectable
              (redirect_task ext.digest settings call db wf k caller cause input inherits priority
                key).reply
            ≡ not (has_link "redirect" t))
        × (is_not_reviewable
              (retask_task ext.digest settings call db wf k caller input priority key).reply
            ≡ not (has_link "retask" t))
        × (is_ok (inject_context ext.int_of call db wf k caller args).reply
            ≡ (has_link "context" t && is_new_number ext.int_of k db args))
  build_task_links_lem ext settings reason priority key cause input inherits args = (
    cancel_offered reason,
    pause_offered settings reason,
    resume_offered settings priority,
    redirect_offered ext.digest settings cause input inherits priority key,
    retask_offered ext.digest settings input priority key,
    context_offered ext.int_of args,
  )
