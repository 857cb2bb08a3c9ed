-- ===== src/Workflows/Client.antt =====
-- A client of the workflow listing.
use mathlib.Core.List.{map-append}
use fleet_api.Base.{
  ℕ, zero, suc, ◌≤◌, ◌<◌, String, ◌≡◌, refl, sym, ap, ◌∙◌, Bool, Option, none, some, List, [], ◌∷◌,
  ◌++◌, ok, ◌>>=◌, All, length, sort, select, arith, map, length-select-le,
}
use fleet_api.Errors.{Reply}
use fleet_api.Agent.{AgentStatus}
use fleet_api.Workflow.{Workflow, WorkflowStatus}
use fleet_api.Store.{Db}
use fleet_api.Paging.{Page, get_page, walk, comes_first}
use fleet_api.Paging.Keys.{IsOrder, HasDistinctKeys, HasDistinctKeys-select}
use fleet_api.Paging.Walk.{concat, walk-Covers}
use fleet_api.Cursors.{Codec, IsCodec}
use fleet_api.Cursors.Trips.{decode_cursor-encode_cursor}
use fleet_api.Workflows.{
  WorkflowFilter, with_status, is_listed, status_filter, encoded, read_cursor, list_workflows,
}

abbrev pub id_of : Workflow → String
id_of w = w.id

abbrev pub Row : Type 0
Row = Workflow × Option AgentStatus

module _ (c : Codec) (collates : String → String → Bool) where
  open c use {Text}

  -- A client that follows the cursors, for `calls` calls at most.
  unfoldable pub follow : ℕ → Db → WorkflowFilter → Option Text → ℕ → Reply (List (List Row))
  follow zero db filter cursor limit = ok []
  follow (suc calls) db filter cursor limit = do
    page ← list_workflows c collates db filter cursor limit
    elim page.next_cursor [
      | none ↦ ok (page.items ∷ [])
      | some next ↦ do rest ← follow calls db filter (some next) limit; ok (page.items ∷ rest)
    ]

concat-map :
    {A B : Type 0} (f : A → B) (xss : List (List A)) → concat (map (map f) xss) ≡ map f (concat xss)
concat-map f [] = refl
concat-map f (xs ∷ xss) =
    ap (λ l. map f xs ++ l) (concat-map f xss) ∙ sym (map-append f xs (concat xss))

length-map : {A B : Type 0} (f : A → B) (xs : List A) → length (map f xs) ≡ length xs
length-map f [] = refl
length-map f (x ∷ xs) = ap suc (length-map f xs)

All-bounded :
    {A B : Type 0} (f : A → B) (n : ℕ) (xss : List (List A))
    → All (λ xs. length xs ≤ n) xss
    → All (λ ys. length ys ≤ n) (map (map f) xss)
All-bounded f n [] h = tt
All-bounded f n (xs ∷ xss) h = (omega (arith, h.0, length-map f xs), All-bounded f n xss h.1)

module _ (c : Codec) (collates : String → String → Bool) (h : IsCodec c) (db : Db)
    (filter : WorkflowFilter) (status : WorkflowStatus)
    (valid : status_filter filter.status ≡ ok status) (limit : ℕ) where
  abbrev rows : List Workflow
  rows = select (is_listed status filter) db.workflows

  read-encoded : (cursor : Option String) → read_cursor c (encoded c cursor) ≡ ok cursor
  read-encoded none = refl
  read-encoded (some k) = rw (decode_cursor-encode_cursor c h k) refl

  abbrev page_at : Option String → Page Workflow String
  page_at cursor = get_page id_of collates limit cursor rows

  list_workflows-eq-ok :
      (cursor : Option String)
      → list_workflows c collates db filter (encoded c cursor) limit
        ≡ ok (record {
          items = map (with_status db) (page_at cursor).items;
          next_cursor = encoded c (page_at cursor).next_key;
          has_more = (page_at cursor).has_more;
          total_count = (page_at cursor).total_count;
        })
  unfolding list_workflows
  list_workflows-eq-ok cursor = rw (valid, read-encoded cursor) refl

  follow-walk :
      (calls : ℕ) (cursor : Option String)
      → follow c collates calls db filter (encoded c cursor) limit
        ≡ ok (map (map (with_status db)) (walk id_of collates calls limit cursor rows))
  unfolding follow walk
  follow-walk zero cursor = refl
  follow-walk (suc calls) cursor =
      rw (list_workflows-eq-ok cursor) (onward (follow-walk calls) (page_at cursor).next_key)
    where
      onward :
          ((k : Option String)
            → follow c collates calls db filter (encoded c k) limit
              ≡ ok (map (map (with_status db)) (walk id_of collates calls limit k rows)))
          → (next : Option String)
          → (elim (encoded c next) [
            | none ↦ ok (map (with_status db) (page_at cursor).items ∷ [])
            | some text ↦ follow c collates calls db filter (some text) limit >>= λ rest.
                ok (map (with_status db) (page_at cursor).items ∷ rest)
          ])
            ≡ ok (
                map (map (with_status db)) (
                  (page_at cursor).items ∷ (elim next [
                    | none ↦ []
                    | some k ↦ walk id_of collates calls limit (some k) rows
                  ])))
      onward ih none = refl
      onward ih (some k) = rw (ih (some k)) refl

module _ (c : Codec) (collates : String → String → Bool) (h : IsCodec c) (order : IsOrder collates)
    (db : Db) (distinct : HasDistinctKeys id_of db.workflows) where
  pub list_workflows_complete :
      (filter : WorkflowFilter) (status : WorkflowStatus) (m calls : ℕ)
      → status_filter filter.status ≡ ok status
      → length db.workflows < calls
      → (pages : List (List Row)) × (follow c collates calls db filter none (suc m) ≡ ok pages)
        × (concat pages
            ≡ map
                (with_status db)
                (sort (comes_first id_of collates) (select (is_listed status filter) db.workflows)))
        × All (λ p. length p ≤ suc m) pages
  list_workflows_complete filter status m calls valid enough =
      let kept = select (is_listed status filter) db.workflows in
      let keys = HasDistinctKeys-select _ (is_listed status filter) db.workflows distinct in
      let (whole, bounded) =
        walk-Covers id_of collates order m kept keys calls
          (omega (arith, length-select-le (is_listed status filter) db.workflows)) in
      let pages = walk id_of collates calls (suc m) none kept in
      (
        map (map (with_status db)) pages,
        follow-walk c collates h db filter status valid (suc m) calls none,
        concat-map (with_status db) pages ∙ ap (map (with_status db)) whole,
        All-bounded (with_status db) (suc m) pages bounded,
      )
