-- ===== src/Lifecycle/Lineage.antt =====
-- `build_lineage_chain` of lifecycle.py.
use mathlib.Core.List.{reverse}
use fleet_api.Base.{ℕ, zero, suc, String, Option, none, some, List, [], ◌∷◌, ◌++◌}
use fleet_api.Task.Row.{Task}
use fleet_api.Store.{Db, find_task}

-- The loop, with the rounds that `range(task.lineage_depth)` leaves; `break` returns the chain.
unfoldable pub walk : Db → ℕ → Option String → List String → List String
walk db zero parent chain = chain
walk db (suc rounds) none chain = chain
walk db (suc rounds) (some k) chain = elim (find_task k db) [
  | none ↦ chain
  | some parent ↦ walk db rounds parent.parent_task_id (chain ++ parent.id ∷ [])
]

unfoldable pub build_lineage_chain : Db → Task → List String
unfolding walk
build_lineage_chain db task =
    reverse (walk db task.lineage_depth task.parent_task_id (task.id ∷ []))
