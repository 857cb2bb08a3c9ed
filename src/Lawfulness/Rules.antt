-- ===== src/Lawfulness/Rules.antt =====
-- Rules for the units of work that the handlers build.
use fleet_api.Base.{ℕ, ◌<◌, String, ◌≡◌, refl, none, some, [], ◌∷◌, Result, ok, err, ap, subst, sym}
use fleet_api.Base.Ensures.{Ensures}
use fleet_api.Errors.{ErrorCode, Reply}
use fleet_api.Task.Row.{Task, TaskEvent}
use fleet_api.Task.Evolution.{Evolves, Fixed}
use fleet_api.Store.{Db, Outcome, settle, settle_any, find_task, id-find, max_sequence}
use fleet_api.Store.Lawful.{IsLawful, UpdateOk, EvolvesFrom, no_work-IsLawful}

pub id_of_evolved :
    (db : Db) (k : String) (task new : Task)
    → find_task k db ≡ some task
    → Evolves task new
    → new.id ≡ k
id_of_evolved db k task new h e =
    cc (ap (λ (f : Fixed). f.id) e.same, id-find (λ (t : Task). t.id) k db.tasks task h)

-- The row that a task evolved from is found under the task's own identifier.
pub row_of_found :
    (db : Db) (k : String) (task new : Task)
    → find_task k db ≡ some task
    → Evolves task new
    → find_task new.id db ≡ some task
row_of_found db k task new h e = rw (id_of_evolved db k task new h e) h

pub update_of_found :
    (db : Db) (k : String) (task new : Task)
    → find_task k db ≡ some task
    → Evolves task new
    → UpdateOk db (some new)
update_of_found db k task new h e =
    subst (λ o. EvolvesFrom o new) (sym (row_of_found db k task new h e)) e

module _ (db : Db) (limit : ℕ) where
  pub settle-IsLawful :
      {A : Type 0} (r : Result ErrorCode (Outcome A))
      → Ensures (λ o. IsLawful db limit o.work) r
      → IsLawful db limit (settle r).work
  settle-IsLawful (ok o) h = h.at o refl
  settle-IsLawful (err e) h = no_work-IsLawful db limit

  pub settle_any-IsLawful :
      {A : Type 0} (r : Reply (Outcome A))
      → Ensures (λ o. IsLawful db limit o.work) r
      → IsLawful db limit (settle_any r).work
  settle_any-IsLawful (ok o) h = h.at o refl
  settle_any-IsLawful (err e) h = no_work-IsLawful db limit

  -- one task changed, and one event of it added
  pub single-IsLawful :
      (k : String) (task new : Task) (e : TaskEvent)
      → find_task k db ≡ some task
      → Evolves task new
      → e.task_id ≡ k
      → max_sequence e.task_id db.events < e.sequence
      → IsLawful db limit (record { updated = some new; added = none; new_events = e ∷ [] })
  single-IsLawful k task new e h ev named s = record {
    update_ok = update_of_found db k task new h ev;
    insertion_ok = tt;
    events_named = (rw (named, h) refl, tt);
    events_ok = λ _ _. (s, tt);
  }
