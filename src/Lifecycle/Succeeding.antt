-- ===== src/Lifecycle/Succeeding.antt =====
-- `retask_task` and `redirect_task`: what is replied and what is written, on every branch.
use mathlib.Core.Path.{fun_ext}
use fleet_api.Base.{
  ℕ, ◌+◌, refl, inl, inr, Option-cases, ap, ◌∙◌, String, ◌≡◌, Bool, true, false, not, Option, none,
  some, ok, err, ◌==◌, arith, if◌then◌else◌, ltb,
}
use fleet_api.Errors.{
  ErrorCode, Reply, api, retask_not_reviewable, redirect_not_possible, retask_depth_exceeded,
  idempotency_mismatch, invalid_input,
}
use fleet_api.Json.{Json, Dict, null, str, entry, obj, empty, get, put, update}
use fleet_api.Task.Status.{
  TaskStatus, accepted, retasked, redirected, is_reviewable, is_in_flight, valid_transitions,
  is_terminal,
}
use fleet_api.Task.Row.{Task, TaskPriority, transition_to, parse_priority}
use fleet_api.Settings.{Settings, Ambient}
use fleet_api.Store.{Db, Outcome, find_by_key}
use fleet_api.Idempotency.{check_idempotency, check_optional_key}
use fleet_api.Lifecycle.Access.{fetch_permitted}
use fleet_api.Lifecycle.Successor.{Succession, successor, resolve_priority}
use fleet_api.Lifecycle.Retask.{retask_task, retask_new, merged_input}
use fleet_api.Lifecycle.Redirect.{redirect_task, redirect_new, redirect_metadata}

-- the new task and whether this is a replay, and the rows that are written
pub record View : Type 0 where
  pub told : Reply (Task × Bool)
  pub updated : Option Task
  pub added : Option Task

abbrev pub view : Outcome Succession → View
view o = record {
  told = elim o.reply [ ok s ↦ ok (s.new_task, s.is_replay) | err e ↦ err e ];
  updated = o.work.updated;
  added = o.work.added;
}

abbrev pub refused : ErrorCode → View
refused code = record { told = err (api code); updated = none; added = none }

-- what the key of the submission names, if anything
abbrev pub named_by : Option String → Db → Option Task
named_by none db = none
named_by (some key) db = find_by_key key db.tasks

abbrev pub chosen : Option String → Task → Option TaskPriority
chosen none t = some t.priority
chosen (some text) t = parse_priority text

-- the input of the original, overlaid by the additional one where it is an object
abbrev pub expected_input : Dict → Option Json → Dict
expected_input input (some (obj extra)) = update input extra
expected_input input _ = input

-- a value of the original's metadata that is there and not null, before the entries of `rest`
abbrev carried : String → Dict → Dict → Dict
carried key m rest = elim (get key m) [ none ↦ rest | some null ↦ rest | some j ↦ entry key j rest ]

abbrev pub expected_metadata : String → Bool → Option Dict → Dict
expected_metadata reason true (some m) =
    entry "redirect_reason" (str reason) (carried "progress" m (carried "progress_message" m empty))
expected_metadata reason _ _ = entry "redirect_reason" (str reason) empty

-- the row that takes over from the original
abbrev pub expected_row :
    Ambient → String → Task → Option String → Dict → Dict → TaskPriority → Task
expected_row call wf t key input metadata priority = record {
  id = call.new_id;
  workflow_id = wf;
  principal_agent_id = t.principal_agent_id;
  executor_agent_id = t.executor_agent_id;
  status = accepted;
  input = input;
  result = null;
  priority = priority;
  timeout_seconds = t.timeout_seconds;
  parent_task_id = some t.id;
  root_task_id = elim t.root_task_id [ none ↦ some t.id | some root ↦ some root ];
  lineage_depth = t.lineage_depth + 1;
  delegation_depth = t.delegation_depth;
  callback_url = none;
  idempotency_key = key;
  created_at = call.now;
  started_at = none;
  completed_at = none;
  paused_at = none;
  metadata = some metadata;
}

successor-eq :
    (call : Ambient) (wf : String) (t : Task) (key : Option String) (input metadata : Dict)
    (p : TaskPriority)
    → successor call wf t input p key metadata ≡ expected_row call wf t key input metadata p
unfolding successor
successor-eq call wf t key input metadata p = elim (Option-cases t.root_task_id) [
  | inl e ↦ rw e refl
  | inr (root, e) ↦ rw e refl
]

merged_input-eq :
    (t : Task) (refinement : Dict)
    → merged_input t refinement ≡ expected_input t.input (get "additional_input" refinement)
unfolding merged_input
merged_input-eq t refinement = ground arith

redirect_metadata-eq :
    (reason : String) (inherits : Bool) (t : Task)
    → redirect_metadata reason inherits t ≡ expected_metadata reason inherits t.metadata
unfolding redirect_metadata put
redirect_metadata-eq reason inherits t = ground arith

-- the original closed in its final state, and the task that takes over
abbrev take_over : ℕ → TaskStatus → Task → Option TaskPriority → (TaskPriority → Task) → View
take_over now status t none make = refused invalid_input
take_over now status t (some p) make = record {
  told = ok (make p, false);
  updated = some (record t { status = status; completed_at = some now });
  added = some (make p);
}

-- a guard of the code and a test of the reference that agree
guarded :
    (g b : Bool) (code : ErrorCode) {v w : View}
    → g ≡ b
    → v ≡ w
    → (if not g then refused code else v) ≡ (if b then w else refused code)
guarded true true code e f = f
guarded true false code e f = cc
guarded false true code e f = cc
guarded false false code e f = refl

module _ (digest : Dict → String) where
  pub succession :
      ℕ
      → ℕ
      → TaskStatus
      → Dict
      → Task
      → Option Task
      → Option TaskPriority
      → (TaskPriority → Task)
      → View
  succession limit now status input t none p make =
      if ltb t.lineage_depth limit
      then take_over now status t p make
      else refused retask_depth_exceeded
  succession limit now status input t (some existing) p make =
      if not (ltb t.lineage_depth limit)
      then refused retask_depth_exceeded
      else if digest existing.input == digest input
      then record { told = ok (existing, true); updated = none; added = none }
      else refused idempotency_mismatch

  module _ (settings : Settings) (call : Ambient) (db : Db) (wf k by : String) (t : Task)
      (permitted : fetch_permitted db wf k by ≡ ok t) (priority key : Option String) where
    view-retask_task :
        (refinement : Dict)
        → view (retask_task digest settings call db wf k by refinement priority key) ≡ (
            if not (is_reviewable t.status)
            then refused retask_not_reviewable
            else succession settings.fleet_lineage_max_depth call.now retasked
                (merged_input t refinement)
                t
                (named_by key db)
                (chosen priority t)
                (λ p.
                  successor call wf t
                    (merged_input t refinement)
                    p
                    key
                    (entry "refinement" (obj refinement) empty)))
    unfolding retask_task retask_new resolve_priority check_optional_key check_idempotency
        transition_to valid_transitions is_terminal is_reviewable succession
    view-retask_task refinement = ground (arith, permitted)

    view-redirect_task :
        (reason : String) (input : Dict) (inherits : Bool)
        → view (redirect_task digest settings call db wf k by reason input inherits priority key)
          ≡ (if not (is_in_flight t.status)
              then refused redirect_not_possible
              else succession settings.fleet_lineage_max_depth call.now redirected input t
                  (named_by key db)
                  (chosen priority t)
                  (λ p. successor call wf t input p key (redirect_metadata reason inherits t)))
    unfolding redirect_task redirect_new resolve_priority check_optional_key check_idempotency
        transition_to valid_transitions is_terminal is_in_flight succession
    view-redirect_task reason input inherits = ground (arith, permitted)

    -- For a caller who may act on the task, every reply of `retask_task` and the rows that it writes are
    -- the reference's: the new row takes over the original's agents, timeout and place in the lineage, its
    -- input overlaid by the additional one, and the priority that is asked for, and stores the refinement.
    pub retask_task_lem :
        (refinement : Dict)
        → let input = expected_input t.input (get "additional_input" refinement) in
          let metadata = entry "refinement" (obj refinement) empty in
          view (retask_task digest settings call db wf k by refinement priority key) ≡ (
            if valid_transitions t.status retasked
            then succession settings.fleet_lineage_max_depth call.now retasked input t
                (named_by key db)
                (chosen priority t)
                (expected_row call wf t key input metadata)
            else refused retask_not_reviewable)
    unfolding is_reviewable valid_transitions
    retask_task_lem refinement =
        view-retask_task refinement
        ∙ rw (merged_input-eq t refinement) (
            guarded (is_reviewable t.status) (valid_transitions t.status retasked)
              retask_not_reviewable (ground arith)
              (ap
                (succession settings.fleet_lineage_max_depth call.now retasked
                  (expected_input t.input (get "additional_input" refinement)) t (named_by key db)
                  (chosen priority t))
                (fun_ext λ p.
                  successor-eq call wf t key
                    (expected_input t.input (get "additional_input" refinement))
                    (entry "refinement" (obj refinement) empty) p)))

    -- For a caller who may act on the task, every reply of `redirect_task` and the rows that it writes
    -- are the reference's: the new row takes over the original's agents, timeout and place in the lineage,
    -- has the new input and the priority that is asked for, and stores the reason and, where they are
    -- inherited, the original's progress and its message.
    pub redirect_task_lem :
        (reason : String) (input : Dict) (inherits : Bool)
        → let metadata = expected_metadata reason inherits t.metadata in
          view (redirect_task digest settings call db wf k by reason input inherits priority key)
          ≡ (if valid_transitions t.status redirected
              then succession settings.fleet_lineage_max_depth call.now redirected input t
                  (named_by key db)
                  (chosen priority t)
                  (expected_row call wf t key input metadata)
              else refused redirect_not_possible)
    unfolding is_in_flight valid_transitions
    redirect_task_lem reason input inherits =
        view-redirect_task reason input inherits
        ∙ rw (redirect_metadata-eq reason inherits t) (
            guarded (is_in_flight t.status) (valid_transitions t.status redirected)
              redirect_not_possible (ground arith)
              (ap
                (succession settings.fleet_lineage_max_depth call.now redirected input t
                  (named_by key db) (chosen priority t))
                (fun_ext λ p.
                  successor-eq call wf t key input (expected_metadata reason inherits t.metadata)
                    p)))
