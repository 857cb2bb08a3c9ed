-- ===== src/Listing/Client.antt =====
-- A client of the task listing.
use fleet_api.Base.{
  ℕ, zero, suc, ◌≤◌, ◌<◌, String, ◌≡◌, refl, ap, Bool, Option, none, some, List, [], ◌∷◌, ok, ◌>>=◌,
  All, length, sort, select, arith, length-select-le,
}
use fleet_api.Workflow.{Workflow}
use fleet_api.Task.Row.{Task}
use fleet_api.Store.{Db, find_workflow}
use fleet_api.Paging.{get_page, walk, comes_first}
use fleet_api.Paging.Keys.{IsOrder, IsFree, HasDistinctKeys, HasDistinctKeys-select}
use fleet_api.Paging.Walk.{concat, walk-Covers}
use fleet_api.Cursors.{Codec, IsCodec, TaskKey}
use fleet_api.Cursors.Trips.{decode_task_cursor-encode_task_cursor}
use fleet_api.Listing.{
  TaskFilter, TaskQuery, resolve, list_tasks, follow, is_listed, key_of, is_newer, page_of, encoded,
  read_cursor,
}
use fleet_api.Listing.Order.{is_newer-IsOrder}

IsFree-key_of :
    (t : Task) (ts : List Task) → IsFree (λ (x : Task). x.id) t.id ts → IsFree key_of (key_of t) ts
IsFree-key_of t [] h = tt
IsFree-key_of t (u ∷ ts) h = (λ e. h.0 (ap (λ (k : TaskKey). k.id) e), IsFree-key_of t ts h.1)

HasDistinctKeys-key_of :
    (ts : List Task) → HasDistinctKeys (λ (x : Task). x.id) ts → HasDistinctKeys key_of ts
HasDistinctKeys-key_of [] h = tt
HasDistinctKeys-key_of (t ∷ ts) h = (IsFree-key_of t ts h.0, HasDistinctKeys-key_of ts h.1)

module _ (c : Codec) (collates : String → String → Bool) (h : IsCodec c) (db : Db) (wf : String)
    (w : Workflow) (there : find_workflow wf db ≡ some w) (filter : TaskFilter) (query : TaskQuery)
    (resolved : resolve c filter ≡ ok query) (limit : ℕ) where
  abbrev pub rows : List Task
  rows = select (is_listed wf query) db.tasks

  read-encoded : (cursor : Option TaskKey) → read_cursor c (encoded c cursor) ≡ ok cursor
  read-encoded none = refl
  read-encoded (some k) = rw (decode_task_cursor-encode_task_cursor c h k) refl

  list_tasks-eq-ok :
      (cursor : Option TaskKey)
      → list_tasks c collates db wf filter (encoded c cursor) limit
        ≡ ok (page_of c (get_page key_of (is_newer collates) limit cursor rows))
  unfolding list_tasks
  list_tasks-eq-ok cursor = rw (there, resolved, read-encoded cursor) refl

  follow-walk :
      (calls : ℕ) (cursor : Option TaskKey)
      → follow c collates calls db wf filter (encoded c cursor) limit
        ≡ ok (walk key_of (is_newer collates) calls limit cursor rows)
  unfolding follow walk
  follow-walk zero cursor = refl
  follow-walk (suc calls) cursor =
      rw (list_tasks-eq-ok cursor) (
        onward (follow-walk calls) (get_page key_of (is_newer collates) limit cursor rows).next_key)
    where
      onward :
          ((k : Option TaskKey)
            → follow c collates calls db wf filter (encoded c k) limit
              ≡ ok (walk key_of (is_newer collates) calls limit k rows))
          → (next : Option TaskKey)
          → (elim (encoded c next) [
            | none ↦ ok ((get_page key_of (is_newer collates) limit cursor rows).items ∷ [])
            | some text ↦ follow c collates calls db wf filter (some text) limit >>= λ rest.
                ok ((get_page key_of (is_newer collates) limit cursor rows).items ∷ rest)
          ])
            ≡ ok (
                (get_page key_of (is_newer collates) limit cursor rows).items ∷ (elim next [
                  | none ↦ []
                  | some k ↦ walk key_of (is_newer collates) calls limit (some k) rows
                ]))
      onward ih none = refl
      onward ih (some k) = rw (ih (some k)) refl

module _ (c : Codec) (collates : String → String → Bool) (h : IsCodec c) (order : IsOrder collates)
    (db : Db) (distinct : HasDistinctKeys (λ (t : Task). t.id) db.tasks) where
  -- A client that follows the cursors of a listing, in calls that find the database unchanged, gets
  -- every task of the workflow that matches the filter, each once, newest first, in pages of at most
  -- the limit; and more calls than there are tasks are enough. The workflow exists, the filter's
  -- parameters are valid, and the tasks have different identifiers.
  pub list_tasks_complete :
      (wf : String) (w : Workflow) (filter : TaskFilter) (query : TaskQuery) (m calls : ℕ)
      → find_workflow wf db ≡ some w
      → resolve c filter ≡ ok query
      → length db.tasks < calls
      → (pages : List (List Task)) × (follow c collates calls db wf filter none (suc m) ≡ ok pages)
        × (concat pages
            ≡ sort (comes_first key_of (is_newer collates)) (select (is_listed wf query) db.tasks))
        × All (λ p. length p ≤ suc m) pages
  list_tasks_complete wf w filter query m calls there resolved enough =
      let kept = select (is_listed wf query) db.tasks in
      let keys =
        HasDistinctKeys-key_of kept
          (HasDistinctKeys-select _ (is_listed wf query) db.tasks distinct) in
      let (whole, bounded) =
        walk-Covers key_of (is_newer collates) (is_newer-IsOrder collates order) m kept keys calls
          (omega (arith, length-select-le (is_listed wf query) db.tasks)) in
      (
        walk key_of (is_newer collates) calls (suc m) none kept,
        follow-walk c collates h db wf w there filter query resolved (suc m) calls none,
        whole,
        bounded,
      )
