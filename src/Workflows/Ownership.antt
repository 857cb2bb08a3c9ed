-- ===== src/Workflows/Ownership.antt =====
-- Registering and updating workflows.
use fleet_api.Base.{
  ℕ, String, ◌≡◌, ◌≢◌, refl, sym, ap, ◌∙◌, ◌⊎◌, inl, inr, none, some, ok, err, Bool-cases,
  Option-cases, is_some, ◌==◌, eq_iff, eq_refl, if◌then◌else◌, arith,
}
use fleet_api.Errors.{api, workflow_exists}
use fleet_api.Workflow.{Workflow, WorkflowStatus}
use fleet_api.Store.{Db, find, find_workflow, replace, find-replace, id-find}
use fleet_api.Workflows.{
  NewWorkflow, new_workflow, create_workflow, validate_workflow_id, validate_json_schema_field,
  Changes, changed, update_workflow,
}

-- What a registration that succeeds establishes.
create_workflow-eq-ok :
    (now : ℕ) (args : NewWorkflow) (db db' : Db) (w : Workflow)
    → create_workflow now args db ≡ ok (w, db')
    → (find_workflow args.workflow_id db' ≡ some w) × (w.owner_agent_id ≡ args.owner_agent_id)
unfolding create_workflow new_workflow find
create_workflow-eq-ok now args db db' w h =
    elim (Option-cases (find_workflow args.workflow_id db)) [
      | inl e ↦ ground (arith, eq_refl args.workflow_id)
      | inr (x, e) ↦ ground (arith, eq_iff x.owner_agent_id args.owner_agent_id)
    ]

valid_id :
    (now : ℕ) (args : NewWorkflow) (db db' : Db) (w : Workflow)
    → create_workflow now args db ≡ ok (w, db')
    → validate_workflow_id args.workflow_id ≡ ok tt
unfolding create_workflow
valid_id now args db db' w h = ground arith

-- A registration that succeeded can be repeated by its owner, with any other details that are valid,
-- and changes nothing; another agent is refused with WORKFLOW_EXISTS.
pub create_workflow-again :
    (now later : ℕ) (args again : NewWorkflow) (db db' : Db) (w : Workflow) (other : String)
    → create_workflow now args db ≡ ok (w, db')
    → again.workflow_id ≡ args.workflow_id
    → again.owner_agent_id ≡ args.owner_agent_id
    → validate_json_schema_field again.input_schema ≡ ok tt
    → validate_json_schema_field again.output_schema ≡ ok tt
    → other ≢ args.owner_agent_id
    → (create_workflow later again db' ≡ ok (w, db'))
      × (create_workflow later (record again { owner_agent_id = other }) db'
          ≡ err (api workflow_exists))
unfolding create_workflow
create_workflow-again now later args again db db' w other h same owner input output differs =
    let (found, owned) = create_workflow-eq-ok now args db db' w h in
    let valid = valid_id now args db db' w h in
    let row : find_workflow again.workflow_id db' ≡ some w =
      ap (λ k. find_workflow k db') same ∙ found in
    let id_ok : validate_workflow_id again.workflow_id ≡ ok tt =
      ap validate_workflow_id same ∙ valid in
    (
      rw (id_ok, input, output, row, owned, owner, eq_refl args.owner_agent_id) refl,
      rw (id_ok, input, output, row, owned) (ground (arith, eq_iff args.owner_agent_id other)),
    )

updated_row :
    (now : ℕ) (k caller : String) (ch : Changes) (db db' : Db) (w w' : Workflow)
    → find_workflow k db ≡ some w
    → update_workflow now k caller ch db ≡ ok (w', db')
    → (w.owner_agent_id ≡ caller)
      × (w' ≡ changed now ch w'.status w)
      × (db' ≡ record db { workflows = replace (λ (x : Workflow). x.id) w' db.workflows })
unfolding update_workflow
updated_row now k caller ch db db' w w' e h =
    (ground (arith, eq_iff w.owner_agent_id caller), ground arith, ground arith)

changed_lem :
    (now : ℕ) (ch : Changes) (status : WorkflowStatus) (w w' : Workflow)
    → w' ≡ changed now ch status w
    → (w'.id ≡ w.id)
      × (w'.owner_agent_id ≡ w.owner_agent_id)
      × (w'.created_at ≡ w.created_at)
      × (w'.updated_at ≡ some now)
unfolding changed
changed_lem now ch status w w' h = (ground arith, ground arith, ground arith, ground arith)

module _ (k : String) (db db' : Db) (w' : Workflow) (key : w'.id ≡ k)
    (after : db' ≡ record db { workflows = replace (λ (x : Workflow). x.id) w' db.workflows }) where
  row_of :
      (j : String)
      → find_workflow j db' ≡ (
          if w'.id == j
          then (if is_some (find_workflow j db) then some w' else none)
          else find_workflow j db)
  row_of j =
      ap (λ d. find_workflow j d) after ∙ find-replace (λ (x : Workflow). x.id) j w' db.workflows

  row_at : (w : Workflow) → find_workflow k db ≡ some w → find_workflow k db' ≡ some w'
  row_at w e = row_of k ∙ rw (key, eq_refl k, e) refl

  other_rows : (j : String) → (j ≡ k) ⊎ (find_workflow j db' ≡ find_workflow j db)
  other_rows j = elim (Bool-cases (k == j)) [
    | inl e ↦ inl (sym ((eq_iff k j).0 e))
    | inr e ↦ inr (row_of j ∙ rw (key, e) refl)
  ]

-- What an update that succeeds does: only the owner makes one, the workflow keeps its identity, owner
-- and time of registration, it has a time of update, and no other workflow is touched.
pub update_workflow-eq-ok :
    (now : ℕ) (k caller j : String) (ch : Changes) (db db' : Db) (w' : Workflow)
    → update_workflow now k caller ch db ≡ ok (w', db')
    → (w : Workflow) × (find_workflow k db ≡ some w)
      × (find_workflow k db' ≡ some w')
      × (w.owner_agent_id ≡ caller)
      × (w'.id ≡ w.id)
      × (w'.owner_agent_id ≡ w.owner_agent_id)
      × (w'.created_at ≡ w.created_at)
      × (w'.updated_at ≡ some now)
      × ((j ≡ k) ⊎ (find_workflow j db' ≡ find_workflow j db))
update_workflow-eq-ok now k caller j ch db db' w' h = elim (Option-cases (find_workflow k db)) [
  | inl e ↦ absurd (unfold update_workflow in ground arith)
  | inr (w, e) ↦
      let (owner, eq, after) = updated_row now k caller ch db db' w w' e h in
      let (id_kept, owner_kept, created_kept, updated) = changed_lem now ch w'.status w w' eq in
      let key : w'.id ≡ k = id_kept ∙ id-find (λ (x : Workflow). x.id) k db.workflows w e in
      (
        w,
        e,
        row_at k db db' w' key after w e,
        owner,
        id_kept,
        owner_kept,
        created_kept,
        updated,
        other_rows k db db' w' key after j,
      )
]
