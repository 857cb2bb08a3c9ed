-- ===== src/Store/Kept.antt =====
-- The rows after a commit of lawful work.
use fleet_api.Base.{
  ℕ, String, ◌≡◌, refl, ◌∙◌, ap, true, ◌⊎◌, inl, inr, Option, none, some, List, ◌++◌, Bool-cases,
  Option-cases, is_some, ◌==◌, eq_iff, eq_refl, if◌then◌else◌, subst, arith,
}
use fleet_api.Task.Row.{Task}
use fleet_api.Task.Evolution.{Evolves, Evolves-refl}
use fleet_api.Store.Table.{find, replace, find-replace}
use fleet_api.Store.Commit.{Db, Work, find_task, commit, apply_update, apply_insert, is_insertable}
use fleet_api.Store.Lawful.{UpdateOk, EvolvesFrom, IsLawful, IsFresh}

pub insertable_fresh : (a : Task) (db : Db) → is_insertable a db ≡ true → find_task a.id db ≡ none
unfolding is_insertable
insertable_fresh a db h = ground arith

pub insertable_of_commit :
    (w : Work) (db db' : Db) (a : Task)
    → w.added ≡ some a
    → commit w db ≡ some db'
    → is_insertable a db ≡ true
unfolding commit
insertable_of_commit w db db' a e h = ground arith

abbrev pub task_id : Task → String
task_id t = t.id

module _ (db : Db) (u : Task) (ok_update : UpdateOk db (some u)) where
  -- what an update does to the row under any key
  find-update :
      (k : String)
      → find task_id k (replace task_id u db.tasks) ≡ (
          if u.id == k then (if is_some (find_task k db) then some u else none) else find_task k db)
  find-update k = find-replace task_id k u db.tasks

  update-Evolves :
      (k : String) (t : Task) → (u.id == k) ≡ true → find_task k db ≡ some t → Evolves t u
  update-Evolves k t e h =
      subst (λ o. EvolvesFrom o u) (ap (λ j. find_task j db) ((eq_iff u.id k).0 e) ∙ h) ok_update

  update_keeps :
      (k : String) (t : Task)
      → find_task k db ≡ some t
      → (t' : Task) × (find task_id k (replace task_id u db.tasks) ≡ some t') × Evolves t t'
  update_keeps k t h = elim (Bool-cases (u.id == k)) [
    | inl e ↦ (u, rw find-update (rw (e, h) refl), update-Evolves k t e h)
    | inr e ↦ (t, rw find-update (rw (e, h) refl), Evolves-refl t)
  ]

  update_none :
      (k : String) → find_task k db ≡ none → find task_id k (replace task_id u db.tasks) ≡ none
  update_none k h = ground (arith, find-update k)

-- Every row that was there is there after the update, and evolved.
update_kept :
    (db : Db) (u : Option Task) (k : String) (t : Task)
    → UpdateOk db u
    → find_task k db ≡ some t
    → (t' : Task) × (find task_id k (apply_update u db.tasks) ≡ some t') × Evolves t t'
update_kept db none k t _ h = (t, h, Evolves-refl t)
update_kept db (some u) k t uo h = update_keeps db u uo k t h

update_absent :
    (db : Db) (u : Option Task) (k : String)
    → UpdateOk db u
    → find_task k db ≡ none
    → find task_id k (apply_update u db.tasks) ≡ none
update_absent db none k _ h = h
update_absent db (some u) k uo h = update_none db u uo k h

-- `o` is the row of a task that evolved from `t`
abbrev pub KeptAs : Task → Option Task → Type 0
KeptAs t o = (t' : Task) × (o ≡ some t') × Evolves t t'

abbrev IsAbsent : List Task → Option Task → Type 0
IsAbsent rows none = Unit
IsAbsent rows (some a) = find task_id a.id rows ≡ none

insert_kept :
    (o : Option Task) (rows : List Task) (k : String) (t : Task)
    → IsAbsent rows o
    → find task_id k rows ≡ some t
    → find task_id k (apply_insert o rows) ≡ some t
insert_kept none rows k t f h = h
insert_kept (some a) rows k t f h = elim (Bool-cases (a.id == k)) [
  | inl e ↦ cc (f, h, (eq_iff a.id k).0 e)
  | inr e ↦ unfold find in rw e h
]

insert_traced :
    (o : Option Task) (rows : List Task) (k : String) (t : Task)
    → find task_id k (apply_insert o rows) ≡ some t
    → ((o ≡ some t) × (t.id ≡ k)) ⊎ (find task_id k rows ≡ some t)
unfolding find
insert_traced none rows k t h = inr h
insert_traced (some a) rows k t h = elim (Bool-cases (a.id == k)) [
  | inl e ↦ inl (ground arith, ground (arith, eq_iff a.id k))
  | inr e ↦ inr (ground arith)
]

module _ (db db' : Db) (limit : ℕ) (w : Work) (lawful : IsLawful db limit w)
    (done : commit w db ≡ some db') where
  tasks_after : db'.tasks ≡ apply_insert w.added (apply_update w.updated db.tasks)
  unfolding commit
  tasks_after = ground arith

  pub events_after : db'.events ≡ w.new_events ++ db.events
  unfolding commit
  events_after = ground arith

  pub added-IsFresh : IsFresh db w.added
  added-IsFresh = fresh w.added refl
    where
      fresh : (o : Option Task) → w.added ≡ o → IsFresh db o
      fresh none e = tt
      fresh (some a) e = insertable_fresh a db (insertable_of_commit w db db' a e done)

  fresh_rows : (o : Option Task) → IsFresh db o → IsAbsent (apply_update w.updated db.tasks) o
  fresh_rows none f = tt
  fresh_rows (some a) f = update_absent db w.updated a.id lawful.update_ok f

  found_after :
      (k : String) (t : Task)
      → find task_id k (apply_update w.updated db.tasks) ≡ some t
      → find_task k db' ≡ some t
  found_after k t h = rw tasks_after (
      insert_kept w.added (apply_update w.updated db.tasks) k t (fresh_rows w.added added-IsFresh)
        h)

  pub kept : (k : String) (t : Task) → find_task k db ≡ some t → KeptAs t (find_task k db')
  kept k t h =
      let (t', found, ev) = update_kept db w.updated k t lawful.update_ok h in
      (t', found_after k t' found, ev)

  -- The updated task is the row under its identifier.
  pub updated_found :
      (new old : Task)
      → w.updated ≡ some new
      → find_task new.id db ≡ some old
      → find_task new.id db' ≡ some new
  updated_found new old e h =
      found_after new.id new
        (rw (e, find-replace task_id new.id new db.tasks, eq_refl new.id, h) refl)

  pub added_found : (a : Task) → w.added ≡ some a → find_task a.id db' ≡ some a
  unfolding find
  added_found a e = rw (tasks_after, e, eq_refl a.id) refl

  -- Every row after the commit is the new one, or evolved from one that was there.
  pub traced :
      (k : String) (t' : Task)
      → find_task k db' ≡ some t'
      → ((w.added ≡ some t') × (t'.id ≡ k))
        ⊎ ((t : Task) × (find_task k db ≡ some t) × Evolves t t')
  traced k t' h = elim (insert_traced w.added _ k t' (rw tasks_after at h)) [
    | inl e ↦ inl e
    | inr e ↦ elim (Option-cases (find_task k db)) [
      | inl none_there ↦ cc (e, update_absent db w.updated k lawful.update_ok none_there)
      | inr (t, there) ↦
          let (t'', found, ev) = update_kept db w.updated k t lawful.update_ok there in
          let same : t'' ≡ t' = cc in inr (t, there, subst (Evolves t) same ev)
    ]
  ]

  -- A row that is not there after the commit was not there before.
  pub absent_before : (k : String) → find_task k db' ≡ none → find_task k db ≡ none
  absent_before k h = elim (Option-cases (find_task k db)) [
    | inl e ↦ e
    | inr (t, e) ↦ let (t', found, _) = kept k t e in cc
  ]
