-- ===== src/Routes/Lineage.antt =====
-- The lineage that the responses to a retask and to a redirect show.
use mathlib.Core.List.{reverse}
use fleet_api.Base.{
  ◌≡◌, refl, ◌∙◌, ap, sym, subst, String, Option, none, some, List, [], ◌∷◌, length,
}
use fleet_api.Base.Int.{pos}
use fleet_api.Settings.{Settings, Ambient}
use fleet_api.Json.{str, num, arr, get, put, in_object}
use fleet_api.Store.{Db, Outcome, perform, commit, find_task}
use fleet_api.Store.WellFormed.{IsWellFormed}
use fleet_api.Store.Kept.{added_found}
use fleet_api.Task.Row.{Task}
use fleet_api.Lifecycle.Successor.{Succession}
use fleet_api.Lifecycle.Retask.{retask_task}
use fleet_api.Lifecycle.Redirect.{redirect_task}
use fleet_api.Lifecycle.Chain.{Ancestry, build_lineage_chain_lem}
use fleet_api.Lifecycle.Lineage.{build_lineage_chain}
use fleet_api.Api.{
  Externals, Request, run, cancel, pause, resume, inject, post_event, retask, redirect, handle,
  serve, work_of,
}
use fleet_api.Api.Commits.{work_of-IsLawful}
use fleet_api.Api.Invariant.{serve-IsWellFormed}
use fleet_api.Api.Superseded.{perform-eq-ok}
use fleet_api.Api.Replays.{retask_task_permitted, redirect_task_permitted}
use fleet_api.Http.{Response}
use fleet_api.Routes.Blocks.{texts, answered}
use fleet_api.Routes.Answers.{Surroundings, answer, endpoint, finished}
use fleet_api.Routes.Succession.{retask_response, redirect_response, retask_body, redirect_body}
use fleet_api.Routes.Created.{
  IsCreated, created, retask_fresh, redirect_fresh, named_parent, retask_task-added,
  redirect_task-added,
}

-- The response names a new row with the task as its parent, its lineage up to the root, from the root
-- on, and as its depth the number of its ancestors.
pub record IsLineageTold (db : Db) (parent : String) (r : Response) : Type 0 where
  pub task : Task
  pub ancestors : List String
  pub row : find_task task.id db ≡ some task
  pub named : get "task_id" r.content ≡ some (str task.id)
  pub successor_of : task.parent_task_id ≡ some parent
  pub ancestry : Ancestry db task ancestors
  pub chain :
      in_object "chain" (get "lineage" r.content)
      ≡ some (arr (texts (reverse (task.id ∷ ancestors))))
  pub depth : in_object "depth" (get "lineage" r.content) ≡ some (num (pos (length ancestors)))

-- what the two bodies share
record ShowsLineage (db : Db) (t : Task) (r : Response) : Type 0 where
  named : get "task_id" r.content ≡ some (str t.id)
  chain :
      in_object "chain" (get "lineage" r.content) ≡ some (arr (texts (build_lineage_chain db t)))
  depth : in_object "depth" (get "lineage" r.content) ≡ some (num (pos t.lineage_depth))

retask_response-ShowsLineage :
    (wf : String) (key : Option String) (s : Succession) (db : Db)
    → ShowsLineage db s.new_task (retask_response wf key s db)
unfolding retask_response retask_body get put
retask_response-ShowsLineage wf none s db = record { named = refl; chain = refl; depth = refl }
retask_response-ShowsLineage wf (some k) s db = record { named = refl; chain = refl; depth = refl }

redirect_response-ShowsLineage :
    (wf : String) (key : Option String) (s : Succession) (db : Db)
    → ShowsLineage db s.new_task (redirect_response wf key s db)
unfolding redirect_response redirect_body get put
redirect_response-ShowsLineage wf none s db = record { named = refl; chain = refl; depth = refl }
redirect_response-ShowsLineage wf (some k) s db = record {
  named = refl;
  chain = refl;
  depth = refl;
}

module _ (ext : Externals) (settings : Settings) (call : Ambient) (db : Db)
    (wf : IsWellFormed settings.fleet_lineage_max_depth db) where
  -- the lineage after a request that has inserted the task
  lineage_told :
      (r : Request) (t : Task) (parent : String) (response : Response)
      → (work_of ext settings call r db).added ≡ some t
      → commit (work_of ext settings call r db) db ≡ some (handle ext settings call r db)
      → t.parent_task_id ≡ some parent
      → ShowsLineage (handle ext settings call r db) t response
      → IsLineageTold (handle ext settings call r db) parent response
  unfolding serve
  lineage_told r t parent response new done child shown =
      let db' = handle ext settings call r db in
      let row : find_task t.id db' ≡ some t =
        added_found db db' _ _ (work_of-IsLawful ext settings call db r) done t new in
      let (ids, anc, chain, len) =
        build_lineage_chain_lem settings.fleet_lineage_max_depth db'
          (serve-IsWellFormed ext settings ((call, r) ∷ []) db wf) t row in
      record {
        task = t;
        ancestors = ids;
        row = row;
        named = shown.named;
        successor_of = child;
        ancestry = anc;
        chain = shown.chain ∙ ap (λ ids. some (arr (texts ids))) chain;
        depth = shown.depth ∙ ap (λ n. some (num (pos n))) (sym len);
      }

-- the task that a request names to be taken over from
abbrev pub superseded_by : Request → Option String
superseded_by (retask _ k _ _ _ _) = some k
superseded_by (redirect _ k _ _ _ _ _ _) = some k
superseded_by _ = none

module _ (ext : Externals) (settings : Settings) (site : Surroundings) (call : Ambient) (db : Db)
    (wf : IsWellFormed settings.fleet_lineage_max_depth db) where
  -- the answer made of an outcome that is the request's
  told_of :
      (r : Request) (parent : String) (o : Outcome Succession) (make : Succession → Db → Response)
      → work_of ext settings call r db ≡ o.work
      → handle ext settings call r db ≡ (perform o db).1
      → (c : IsCreated site make (perform o db))
      → (o.work.added ≡ some c.made.new_task) × (c.made.new_task.parent_task_id ≡ some parent)
      → ((d : Db) → ShowsLineage d c.made.new_task (make c.made d))
      → let a = finished site (answered (perform o db) make) in IsLineageTold a.1 parent a.0
  told_of r parent o make same_work same_db c (new, child) shows =
      let done = (perform-eq-ok o db c.made c.replied).1 in
      let told : IsLineageTold (handle ext settings call r db) parent
          (make c.made (handle ext settings call r db)) =
        lineage_told ext settings call db wf r c.made.new_task parent _ (rw same_work new)
          (rw (same_work, same_db) done) child (shows (handle ext settings call r db)) in
      subst (λ (a : Response × Db). IsLineageTold a.1 parent a.0) (sym c.shown)
        (subst (λ d. IsLineageTold d parent (make c.made d)) same_db told)

  -- In a well-formed database, a retask or a redirect of a task that is answered with 201 has made a row
  -- with that task as its parent, and the response names it and shows its whole ancestry, from the root
  -- on, and as its depth the number of its ancestors.
  pub answer-IsLineageTold :
      (r : Request) (parent : String)
      → superseded_by r ≡ some parent
      → (answer ext settings site call r db).0.status_code ≡ 201
      → IsLineageTold
          (answer ext settings site call r db).1
          parent
          (answer ext settings site call r db).0
  unfolding answer endpoint work_of handle
  answer-IsLineageTold (retask w k by refinement priority key) parent e h =
      let o = retask_task ext.digest settings call db w k by refinement priority key in
      let c =
        created site (retask_response w key) (perform o db).0 (perform o db).1
          (retask_fresh w key (perform o db).1) h in
      let told = (perform-eq-ok o db c.made c.replied).0 in
      let (t, may) =
        retask_task_permitted ext settings call db w k by refinement priority key c.made told in
      let (new, child) =
        retask_task-added ext settings call db w k by refinement priority key c.made t may told
          c.fresh in
      told_of (retask w k by refinement priority key) parent o (retask_response w key) refl refl c
        (new, child ∙ named_parent db w k by t parent may (cc))
        (retask_response-ShowsLineage w key c.made)
  answer-IsLineageTold (redirect w k by reason input inherits priority key) parent e h =
      let o = redirect_task ext.digest settings call db w k by reason input inherits priority key in
      let c =
        created site (redirect_response w key) (perform o db).0 (perform o db).1
          (redirect_fresh w key (perform o db).1) h in
      let told = (perform-eq-ok o db c.made c.replied).0 in
      let (t, may) =
        redirect_task_permitted ext settings call db w k by reason input inherits priority key
          c.made told in
      let (new, child) =
        redirect_task-added ext settings call db w k by reason input inherits priority key c.made t
          may told c.fresh in
      told_of (redirect w k by reason input inherits priority key) parent o
        (redirect_response w key) refl refl c
        (new, child ∙ named_parent db w k by t parent may (cc))
        (redirect_response-ShowsLineage w key c.made)
  answer-IsLineageTold (run _) parent e h = cc
  answer-IsLineageTold (cancel _ _ _ _) parent e h = cc
  answer-IsLineageTold (pause _ _ _ _) parent e h = cc
  answer-IsLineageTold (resume _ _ _ _) parent e h = cc
  answer-IsLineageTold (inject _ _ _ _) parent e h = cc
  answer-IsLineageTold (post_event _ _ _ _ _) parent e h = cc
