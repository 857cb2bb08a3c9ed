-- ===== src/Store/Lawful.antt =====
-- What a handler may put into its unit of work.
use fleet_api.Base.{
  ℕ, ◌+◌, ◌≤◌, String, ◌≡◌, true, false, Option, none, some, or_else, is_some, All, ◌⊎◌, [],
}
use fleet_api.Task.Status.{accepted, is_superseded}
use fleet_api.Task.Row.{Task, TaskEvent}
use fleet_api.Task.Evolution.{Evolves}
use fleet_api.Store.Commit.{Db, Work, find_task}
use fleet_api.Store.Events.{InOrder, max_sequence}

abbrev pub EvolvesFrom : Option Task → Task → Type 0
EvolvesFrom none new = ⊥
EvolvesFrom (some old) new = Evolves old new

-- the updated task is a row, and evolves from it
abbrev pub UpdateOk : Db → Option Task → Type 0
UpdateOk db none = Unit
UpdateOk db (some new) = EvolvesFrom (find_task new.id db) new

pub record IsRoot (t : Task) : Type 0 where
  pub depth : t.lineage_depth ≡ 0
  pub parent : t.parent_task_id ≡ none
  pub root : t.root_task_id ≡ none

pub record IsChildOf (p t : Task) : Type 0 where
  pub depth : t.lineage_depth ≡ p.lineage_depth + 1
  pub parent : t.parent_task_id ≡ some p.id
  pub root : t.root_task_id ≡ some (or_else p.root_task_id p.id)
  pub principal : t.principal_agent_id ≡ p.principal_agent_id
  pub executor : t.executor_agent_id ≡ p.executor_agent_id

-- A new task starts a lineage, or takes over from the task that the same unit of work supersedes.
pub data Origin (db : Db) (limit : ℕ) (w : Work) (t : Task) : Type 0 where
  root : IsRoot t → Origin db limit w t
  child :
      (old new : Task)
      → w.updated ≡ some new
      → find_task new.id db ≡ some old
      → is_superseded old.status ≡ false
      → is_superseded new.status ≡ true
      → IsChildOf new t
      → t.lineage_depth ≤ limit
      → Origin db limit w t

pub record InsertOk (db : Db) (limit : ℕ) (w : Work) (t : Task) : Type 0 where
  pub fresh_status : t.status ≡ accepted
  pub open_task : t.completed_at ≡ none
  pub origin : Origin db limit w t

abbrev pub InsertionOk : Db → ℕ → Work → Option Task → Type 0
InsertionOk db limit w none = Unit
InsertionOk db limit w (some t) = InsertOk db limit w t

-- no event of a task that is not there
abbrev pub AreEventsKnown : Db → Type 0
AreEventsKnown db = (k : String) → find_task k db ≡ none → max_sequence k db.events ≡ 0

abbrev pub IsFresh : Db → Option Task → Type 0
IsFresh db none = Unit
IsFresh db (some t) = find_task t.id db ≡ none

-- the task of a new event: a row that is there, or the new one
abbrev pub IsNamed : Db → Option Task → String → Type 0
IsNamed db none k = is_some (find_task k db) ≡ true
IsNamed db (some a) k = (is_some (find_task k db) ≡ true) ⊎ (a.id ≡ k)

pub record IsLawful (db : Db) (limit : ℕ) (w : Work) : Type 0 where
  pub update_ok : UpdateOk db w.updated
  pub insertion_ok : InsertionOk db limit w w.added
  pub events_named : All (λ (e : TaskEvent). IsNamed db w.added e.task_id) w.new_events
  pub events_ok : AreEventsKnown db → IsFresh db w.added → InOrder db.events w.new_events

pub no_work-IsLawful :
    (db : Db) (limit : ℕ)
    → IsLawful db limit (record { updated = none; added = none; new_events = [] })
no_work-IsLawful db limit = record {
  update_ok = tt;
  insertion_ok = tt;
  events_named = tt;
  events_ok = λ _ _. tt;
}
