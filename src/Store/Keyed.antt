-- ===== src/Store/Keyed.antt =====
-- The row that an idempotency key names, after a commit of lawful work.
use fleet_api.Base.{
  ℕ, String, ◌≡◌, refl, ap, true, false, inl, inr, Option, none, some, List, [], ◌∷◌, Bool-cases,
  ◌==◌, eq_iff, subst, arith,
}
use fleet_api.Task.Row.{Task}
use fleet_api.Task.Evolution.{Evolves, Evolves-refl, Fixed}
use fleet_api.Store.Table.{find, replace}
use fleet_api.Store.Commit.{
  Db, Work, commit, apply_update, apply_insert, is_insertable, find_by_key, has_key,
}
use fleet_api.Store.Lawful.{UpdateOk, EvolvesFrom, IsLawful}
use fleet_api.Store.Kept.{KeptAs, task_id, insertable_of_commit}

has_key-Evolves :
    (x u : Task) (key : String)
    → Evolves x u
    → has_key u.idempotency_key key ≡ has_key x.idempotency_key key
has_key-Evolves x u key ev = ap (λ (f : Fixed). has_key f.idempotency_key key) ev.same

head_keyed :
    (u : Task) (key : String) (x : Task) (rows : List Task) (t : Task)
    → (x.id == u.id) ≡ true
    → Evolves x u
    → find_by_key key (x ∷ rows) ≡ some t
    → KeptAs t (find_by_key key (replace task_id u (x ∷ rows)))
unfolding find_by_key replace
head_keyed u key x rows t e ev h = elim (Bool-cases (has_key x.idempotency_key key)) [
  | inl k ↦
      (u, rw (e, has_key-Evolves x u key ev, k) refl, subst (λ y. Evolves y u) (ground arith) ev)
  | inr k ↦ (t, rw (e, has_key-Evolves x u key ev, k) (ground arith), Evolves-refl t)
]

tail_keyed :
    (u : Task) (key : String) (x : Task) (rows : List Task) (t : Task)
    → (x.id == u.id) ≡ false
    → (find_by_key key rows ≡ some t → KeptAs t (find_by_key key (replace task_id u rows)))
    → find_by_key key (x ∷ rows) ≡ some t
    → KeptAs t (find_by_key key (replace task_id u (x ∷ rows)))
unfolding find_by_key replace
tail_keyed u key x rows t e ih h = elim (Bool-cases (has_key x.idempotency_key key)) [
  | inl k ↦ (t, rw (e, k) (ground arith), Evolves-refl t)
  | inr k ↦ let (t', found, ev) = ih (ground arith) in (t', rw (e, k) found, ev)
]

-- A replaced row keeps its key, and so its place among the rows that the key finds.
replace_keyed :
    (u : Task) (key : String) (rows : List Task) (t : Task)
    → EvolvesFrom (find task_id u.id rows) u
    → find_by_key key rows ≡ some t
    → KeptAs t (find_by_key key (replace task_id u rows))
unfolding find
replace_keyed u key [] t ev h = absurd ev
replace_keyed u key (x ∷ rows) t ev h = elim (Bool-cases (x.id == u.id)) [
  | inl e ↦ head_keyed u key x rows t e (rw e at ev) h
  | inr e ↦ tail_keyed u key x rows t e (replace_keyed u key rows t (rw e at ev)) h
]

update_keyed :
    (db : Db) (u : Option Task) (key : String) (t : Task)
    → UpdateOk db u
    → find_by_key key db.tasks ≡ some t
    → KeptAs t (find_by_key key (apply_update u db.tasks))
update_keyed db none key t _ h = (t, h, Evolves-refl t)
update_keyed db (some u) key t uo h = replace_keyed u key db.tasks t uo h

-- the unique index refuses a second row with the key
key_taken :
    (a : Task) (db : Db) (key : String) (t : Task)
    → is_insertable a db ≡ true
    → find_by_key key db.tasks ≡ some t
    → has_key a.idempotency_key key ≡ false
unfolding is_insertable
key_taken a db key t ins h = split a.idempotency_key refl
  where
    split : (o : Option String) → a.idempotency_key ≡ o → has_key o key ≡ false
    split none e = refl
    split (some k) e = ground (arith, eq_iff k key)

module _ (db db' : Db) (limit : ℕ) (w : Work) (lawful : IsLawful db limit w)
    (done : commit w db ≡ some db') where
  insert_keyed :
      (o : Option Task) (key : String) (t t' : Task) (rows : List Task)
      → w.added ≡ o
      → find_by_key key db.tasks ≡ some t
      → find_by_key key rows ≡ some t'
      → find_by_key key (apply_insert o rows) ≡ some t'
  unfolding find_by_key
  insert_keyed none key t t' rows e h h' = h'
  insert_keyed (some a) key t t' rows e h h' =
      rw (key_taken a db key t (insertable_of_commit w db db' a e done) h) h'

  tasks_after : db'.tasks ≡ apply_insert w.added (apply_update w.updated db.tasks)
  unfolding commit
  tasks_after = ground arith

  pub workflows_after : db'.workflows ≡ db.workflows
  unfolding commit
  workflows_after = ground arith

  -- The task that a key names is named by it after the commit.
  pub keyed :
      (key : String) (t : Task)
      → find_by_key key db.tasks ≡ some t
      → KeptAs t (find_by_key key db'.tasks)
  keyed key t h =
      let (t', found, ev) = update_keyed db w.updated key t lawful.update_ok h in
      (t', rw tasks_after (insert_keyed w.added key t t' _ refl h found), ev)
