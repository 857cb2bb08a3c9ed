-- ===== src/Lifecycle/Chain.antt =====
-- The walk of `build_lineage_chain` over a well-formed database.
use mathlib.Core.List.{reverse, append_assoc, append-nil}
use fleet_api.Base.{
  ℕ, zero, suc, String, ◌≡◌, refl, sym, ap, ◌∙◌, inl, inr, Option, none, some, List, [], ◌∷◌, ◌++◌,
  length, arith,
}
use fleet_api.Task.Row.{Task}
use fleet_api.Store.{Db, find_task}
use fleet_api.Store.Lawful.{IsRoot, IsChildOf}
use fleet_api.Store.WellFormed.{IsWellFormed}
use fleet_api.Lifecycle.Lineage.{walk, build_lineage_chain}

-- The identifiers of a task's ancestors, from its parent up to the root of its lineage.
pub data Ancestry (db : Db) : Task → List String → Type 0 where
  root : {t : Task} → IsRoot t → Ancestry db t []
  step :
      {t : Task} {ids : List String} (p : Task)
      → find_task p.id db ≡ some p
      → IsChildOf p t
      → Ancestry db p ids
      → Ancestry db t (p.id ∷ ids)

-- one round of the loop
walk_step :
    (db : Db) (d : ℕ) (p : Task) (chain : List String)
    → find_task p.id db ≡ some p
    → walk db (suc d) (some p.id) chain ≡ walk db d p.parent_task_id (chain ++ p.id ∷ [])
unfolding walk
walk_step db d p chain h = go (find_task p.id db) h
  where
    go :
        (o : Option Task)
        → o ≡ some p
        → (elim o [ none ↦ chain | some q ↦ walk db d q.parent_task_id (chain ++ q.id ∷ []) ])
          ≡ walk db d p.parent_task_id (chain ++ p.id ∷ [])
    go o e = rw e

module _ (limit : ℕ) (db : Db) (wf : IsWellFormed limit db) where
  walk_lem :
      (d : ℕ) (t : Task) (chain : List String)
      → find_task t.id db ≡ some t
      → t.lineage_depth ≡ d
      → (ids : List String) × Ancestry db t ids
        × (walk db d t.parent_task_id chain ≡ chain ++ ids)
        × (length ids ≡ d)
  unfolding walk
  walk_lem zero t chain row e = elim (wf.lineage t.id t row) [
    | inl r ↦ ([], root r, sym (append-nil chain), refl)
    | inr (p, _, ch, _) ↦ absurd (omega (arith, ch.depth))
  ]
  walk_lem (suc d) t chain row e = elim (wf.lineage t.id t row) [
    | inl r ↦ absurd (omega (arith, r.depth))
    | inr (p, prow, ch, _) ↦
        let (ids, anc, eq, len) =
          walk_lem d p (chain ++ p.id ∷ []) prow (omega (arith, ch.depth)) in
        (
          p.id ∷ ids,
          step p prow ch anc,
          ap (λ o. walk db (suc d) o chain) ch.parent
              ∙ walk_step db d p chain prow
              ∙ eq
              ∙ append_assoc chain (p.id ∷ []) ids,
          ap suc len,
        )
  ]

  -- In a well-formed database the chain of a task is its whole ancestry and the task itself, from the
  -- root on: the loop's bound of `lineage_depth` rounds is enough, and no `break` cuts it short.
  pub build_lineage_chain_lem :
      (t : Task)
      → find_task t.id db ≡ some t
      → (ids : List String) × Ancestry db t ids
        × (build_lineage_chain db t ≡ reverse (t.id ∷ ids))
        × (length ids ≡ t.lineage_depth)
  unfolding build_lineage_chain
  build_lineage_chain_lem t row =
      let (ids, anc, eq, len) = walk_lem t.lineage_depth t (t.id ∷ []) row refl in
      (ids, anc, ap reverse eq, len)
