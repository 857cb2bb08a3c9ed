-- ===== src/Store/Commit.antt =====
-- The tables, and `session.commit()` with the constraints that models.py and
-- alembic/versions/001_initial_schema.py declare.
use fleet_api.Base.{
  String, Bool, true, false, not, ◌&&◌, Option, none, some, List, [], ◌∷◌, ◌++◌, Result, ok, err,
  ◌==◌, is_some, if◌then◌else◌,
}
use fleet_api.Errors.{ErrorCode, api, integrity, Reply}
use fleet_api.Agent.{Agent}
use fleet_api.Workflow.{Workflow}
use fleet_api.Task.Row.{Task, TaskEvent}
use fleet_api.Store.Table.{find, replace}
use fleet_api.Store.Events.{are_numbers_free}

pub record Db : Type 0 where
  pub agents : List Agent
  pub workflows : List Workflow
  pub tasks : List Task
  pub events : List TaskEvent

abbrev pub find_task : String → Db → Option Task
find_task k db = find (λ (t : Task). t.id) k db.tasks

abbrev pub find_workflow : String → Db → Option Workflow
find_workflow k db = find (λ (w : Workflow). w.id) k db.workflows

abbrev pub find_agent : String → Db → Option Agent
find_agent k db = find (λ (a : Agent). a.id) k db.agents

-- What a handler has changed in its session: the task that it loaded and assigned to, the task
-- that it added, and the events that it added, the last one first.
pub record Work : Type 0 where
  pub updated : Option Task
  pub added : Option Task
  pub new_events : List TaskEvent

abbrev pub no_work : Work
no_work = record { updated = none; added = none; new_events = [] }

abbrev pub has_key : Option String → String → Bool
has_key none key = false
has_key (some k) key = k == key

-- `select(Task).where(Task.idempotency_key == key)`
unfoldable pub find_by_key : String → List Task → Option Task
find_by_key key [] = none
find_by_key key (t ∷ ts) = if has_key t.idempotency_key key then some t else find_by_key key ts

abbrev pub is_key_free : Option String → List Task → Bool
is_key_free none ts = true
is_key_free (some key) ts = not (is_some (find_by_key key ts))

abbrev pub refers_to_task : Option String → Db → Bool
refers_to_task none db = true
refers_to_task (some k) db = is_some (find_task k db)

abbrev pub refers_to_agent : Option String → Db → Bool
refers_to_agent none db = true
refers_to_agent (some k) db = is_some (find_agent k db)

-- The constraints on a row to insert: primary key, unique idempotency key, foreign keys.
unfoldable pub is_insertable : Task → Db → Bool
is_insertable t db =
    not (is_some (find_task t.id db))
    && is_key_free t.idempotency_key db.tasks
    && is_some (find_workflow t.workflow_id db)
    && refers_to_agent (some t.principal_agent_id) db
    && refers_to_agent t.executor_agent_id db
    && refers_to_task t.parent_task_id db
    && refers_to_task t.root_task_id db

abbrev pub apply_update : Option Task → List Task → List Task
apply_update none ts = ts
apply_update (some t) ts = replace (λ (x : Task). x.id) t ts

abbrev pub apply_insert : Option Task → List Task → List Task
apply_insert none ts = ts
apply_insert (some t) ts = t ∷ ts

abbrev pub is_added_insertable : Option Task → Db → Bool
is_added_insertable none db = true
is_added_insertable (some t) db = is_insertable t db

-- `none` is an IntegrityError, after which nothing is written: of the new task's row, or of the unique index
-- over an event's task and number. An event's foreign key needs no test: its handler has read or adds the task.
unfoldable pub commit : Work → Db → Option Db
commit w db =
    if is_added_insertable w.added db && are_numbers_free w.new_events db.events
    then some (record db {
      tasks = apply_insert w.added (apply_update w.updated db.tasks);
      events = w.new_events ++ db.events;
    })
    else none

-- What a handler returns or raises, and the work that it committed before. A handler that raises
-- with nothing committed leaves `no_work`: its session is closed and rolled back.
pub record Outcome (A : Type 0) : Type 0 where
  pub reply : Reply A
  pub work : Work

abbrev pub settle : {A : Type 0} → Result ErrorCode (Outcome A) → Outcome A
settle (ok o) = o
settle (err e) = record { reply = err (api e); work = no_work }

abbrev pub settle_any : {A : Type 0} → Reply (Outcome A) → Outcome A
settle_any (ok o) = o
settle_any (err e) = record { reply = err e; work = no_work }

abbrev pub lift : {A : Type 0} → Result ErrorCode A → Reply A
lift (ok a) = ok a
lift (err e) = err (api e)

abbrev pub after_commit : {A : Type 0} → Option Db → Outcome A → Db → Reply A × Db
after_commit none o db = (err integrity, db)
after_commit (some db') o db = (o.reply, db')

-- The request as a whole: the handler's work is written at once or not at all.
unfoldable pub perform : {A : Type 0} → Outcome A → Db → Reply A × Db
perform o db = after_commit (commit o.work db) o db
