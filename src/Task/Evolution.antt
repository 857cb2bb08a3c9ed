-- ===== src/Task/Evolution.antt =====
-- What an operation may do to a task that is there: nothing of its identity and lineage changes, the
-- status stays or follows one of VALID_TRANSITIONS, and a closed task has its time of completion.
use fleet_api.Base.{
  ℕ, String, ◌≡◌, refl, ◌⊎◌, inl, inr, true, false, Option, some, ok, is_some, if◌then◌else◌, arith,
}
use fleet_api.Json.{Dict}
use fleet_api.Task.Status.{TaskStatus, valid_transitions, is_terminal}
use fleet_api.Task.Row.{Task, transition_to}

-- the columns that no operation assigns to after the insertion
pub record Fixed : Type 0 where
  pub id : String
  pub workflow_id : String
  pub principal_agent_id : String
  pub executor_agent_id : Option String
  pub input : Dict
  pub timeout_seconds : Option ℕ
  pub parent_task_id : Option String
  pub root_task_id : Option String
  pub lineage_depth : ℕ
  pub delegation_depth : ℕ
  pub callback_url : Option String
  pub idempotency_key : Option String
  pub created_at : ℕ

abbrev pub fixed : Task → Fixed
fixed t = record {
  id = t.id;
  workflow_id = t.workflow_id;
  principal_agent_id = t.principal_agent_id;
  executor_agent_id = t.executor_agent_id;
  input = t.input;
  timeout_seconds = t.timeout_seconds;
  parent_task_id = t.parent_task_id;
  root_task_id = t.root_task_id;
  lineage_depth = t.lineage_depth;
  delegation_depth = t.delegation_depth;
  callback_url = t.callback_url;
  idempotency_key = t.idempotency_key;
  created_at = t.created_at;
}

abbrev pub IsClosed : Task → Type 0
IsClosed t = is_terminal t.status ≡ is_some t.completed_at

pub record Evolves (old new : Task) : Type 0 where
  pub same : fixed new ≡ fixed old
  pub status_step : (new.status ≡ old.status) ⊎ (valid_transitions old.status new.status ≡ true)
  pub started_kept : is_some old.started_at ≡ true → new.started_at ≡ old.started_at
  pub closed_kept : IsClosed old → IsClosed new

pub Evolves-refl : (t : Task) → Evolves t t
Evolves-refl t = record {
  same = refl;
  status_step = inl refl;
  started_kept = λ _. refl;
  closed_kept = λ h. h;
}

-- the task after a transition that is not refused
abbrev pub moved : ℕ → TaskStatus → Task → Task
moved now s t = record t {
  status = s;
  completed_at = if is_terminal s then some now else t.completed_at;
}

-- Exactly when a transition is refused, and what it does otherwise.
pub transition_to-eq-ok :
    (now : ℕ) (s : TaskStatus) (t t' : Task)
    → transition_to now s t ≡ ok t'
    → (valid_transitions t.status s ≡ true) × (t' ≡ moved now s t)
unfolding transition_to
transition_to-eq-ok now s t t' h = ground arith

pub transition_to-valid :
    (now : ℕ) (s : TaskStatus) (t : Task)
    → valid_transitions t.status s ≡ true
    → transition_to now s t ≡ ok (moved now s t)
unfolding transition_to
transition_to-valid now s t h = ground arith

-- A state that is left for one that is not terminal was not terminal.
terminal_stays :
    (s t : TaskStatus)
    → valid_transitions s t ≡ true
    → is_terminal t ≡ false
    → is_terminal s ≡ false
unfolding valid_transitions is_terminal
terminal_stays s t h k = ground arith

pub moved-IsClosed :
    (now : ℕ) (s : TaskStatus) (t : Task)
    → valid_transitions t.status s ≡ true
    → IsClosed t
    → IsClosed (moved now s t)
moved-IsClosed now s t v h = ground (arith, terminal_stays t.status s v)

-- A task that agrees with the moved one in what matters evolves from the original.
pub Evolves-moved :
    (now : ℕ) (s : TaskStatus) (t new : Task)
    → valid_transitions t.status s ≡ true
    → fixed new ≡ fixed t
    → new.status ≡ s
    → new.completed_at ≡ (moved now s t).completed_at
    → (is_some t.started_at ≡ true → new.started_at ≡ t.started_at)
    → Evolves t new
Evolves-moved now s t new v e st co sa = record {
  same = e;
  status_step = inr (ground arith);
  started_kept = sa;
  closed_kept = λ h. ground (arith, moved-IsClosed now s t v h);
}

-- A task that keeps its status and its time of completion evolves from the original.
pub Evolves-same_status :
    (t new : Task)
    → fixed new ≡ fixed t
    → new.status ≡ t.status
    → new.completed_at ≡ t.completed_at
    → new.started_at ≡ t.started_at
    → Evolves t new
Evolves-same_status t new e st co sa = record {
  same = e;
  status_step = inl st;
  started_kept = λ _. sa;
  closed_kept = λ h. ground arith;
}
