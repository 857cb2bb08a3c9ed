-- ===== src/Store/WellFormed.antt =====
-- What holds of the database between two requests, and its preservation by lawful work.
use mathlib.Core.List.{append-nil}
use fleet_api.Base.{
  ℕ, ◌≤◌, String, ◌≡◌, refl, sym, ◌∙◌, ap, subst, true, false, ◌⊎◌, inl, inr, Option, none, some,
  List, [], ◌∷◌, ◌++◌, All, Bool-cases, ◌==◌, eq_iff, arith,
}
use fleet_api.Task.Status.{TaskStatus, accepted, is_superseded, is_terminal, valid_transitions}
use fleet_api.Task.Row.{Task, TaskEvent}
use fleet_api.Task.Evolution.{Evolves, IsClosed, Fixed, fixed}
use fleet_api.Store.Table.{id-find}
use fleet_api.Store.Commit.{Db, Work, find_task, commit}
use fleet_api.Store.Events.{max_sequence, InOrder}
use fleet_api.Store.Lawful.{
  IsLawful, InsertOk, InsertionOk, Origin, root, child, IsRoot, IsChildOf, AreEventsKnown, IsNamed,
}
use fleet_api.Store.Kept.{
  kept, traced, events_after, added-IsFresh, absent_before, updated_found, added_found,
}

-- A task starts its lineage, or its parent is a row that it has taken over from.
abbrev pub HasLineage : Db → Task → Type 0
HasLineage db t =
    IsRoot t
    ⊎ ((p : Task) × (find_task p.id db ≡ some p) × IsChildOf p t × (is_superseded p.status ≡ true))

pub record IsWellFormed (limit : ℕ) (db : Db) : Type 0 where
  -- exactly the tasks in a terminal state have a time of completion
  pub closed : (k : String) (t : Task) → find_task k db ≡ some t → IsClosed t
  pub depth_bounded : (k : String) (t : Task) → find_task k db ≡ some t → t.lineage_depth ≤ limit
  pub lineage : (k : String) (t : Task) → find_task k db ≡ some t → HasLineage db t
  -- a task has one successor at most
  pub one_child :
      (j k p : String) (s t : Task)
      → find_task j db ≡ some s
      → find_task k db ≡ some t
      → s.parent_task_id ≡ some p
      → t.parent_task_id ≡ some p
      → s.id ≡ t.id
  pub events_known : AreEventsKnown db
  -- the sequence numbers of a task's events increase
  pub events_ordered : InOrder [] db.events

some-inj : {A : Type 0} {a b : A} → some a ≡ some b → a ≡ b
some-inj h = cc

superseded_stays :
    (s t : TaskStatus)
    → (t ≡ s) ⊎ (valid_transitions s t ≡ true)
    → is_superseded s ≡ true
    → is_superseded t ≡ true
unfolding valid_transitions is_superseded
superseded_stays s t e h = ground arith

accepted-IsClosed : (t : Task) → t.status ≡ accepted → t.completed_at ≡ none → IsClosed t
unfolding is_terminal
accepted-IsClosed t s c = ground arith

InOrder-append :
    (old new : List TaskEvent) → InOrder old new → InOrder [] old → InOrder [] (new ++ old)
InOrder-append old [] h g = g
InOrder-append old (e ∷ es) h g = (rw (append-nil (es ++ old)) h.0, InOrder-append old es h.1 g)

IsChildOf-evolves :
    (p p' t t' : Task) → fixed p' ≡ fixed p → fixed t' ≡ fixed t → IsChildOf p t → IsChildOf p' t'
IsChildOf-evolves p p' t t' e f h = ground arith

IsRoot-evolves : (t t' : Task) → fixed t' ≡ fixed t → IsRoot t → IsRoot t'
IsRoot-evolves t t' f h = ground arith

module _ (db db' : Db) (limit : ℕ) (w : Work) (lawful : IsLawful db limit w)
    (done : commit w db ≡ some db') (wf : IsWellFormed limit db) where
  inserted : (t : Task) → w.added ≡ some t → InsertOk db limit w t
  inserted t e = subst (InsertionOk db limit w) e lawful.insertion_ok

  commit-IsClosed : (k : String) (t : Task) → find_task k db' ≡ some t → IsClosed t
  commit-IsClosed k t h = elim (traced db db' limit w lawful done k t h) [
    | inl (e, _) ↦ let new = inserted t e in accepted-IsClosed t new.fresh_status new.open_task
    | inr (old, f, ev) ↦ ev.closed_kept (wf.closed k old f)
  ]

  Origin-bounded : (t : Task) → Origin db limit w t → t.lineage_depth ≤ limit
  Origin-bounded t (root r) = omega (arith, r.depth)
  Origin-bounded t (child _ _ _ _ _ _ _ h) = h

  depth_after : (k : String) (t : Task) → find_task k db' ≡ some t → t.lineage_depth ≤ limit
  depth_after k t h = elim (traced db db' limit w lawful done k t h) [
    | inl (e, _) ↦ Origin-bounded t (inserted t e).origin
    | inr (old, f, ev) ↦
        omega (arith, wf.depth_bounded k old f, ap (λ (x : Fixed). x.lineage_depth) ev.same)
  ]

  Origin-HasLineage : (t : Task) → Origin db limit w t → HasLineage db' t
  Origin-HasLineage t (root r) = inl r
  Origin-HasLineage t (child old new e row _ sup ch _) =
      inr (new, updated_found db db' limit w lawful done new old e row, ch, sup)

  lineage_kept : (old t : Task) → Evolves old t → HasLineage db old → HasLineage db' t
  lineage_kept old t ev (inl r) = inl (IsRoot-evolves old t ev.same r)
  lineage_kept old t ev (inr (p, row, ch, sup)) =
      let (p', row', evp) = kept db db' limit w lawful done p.id p row in
      inr (
        p',
        subst (λ k. find_task k db' ≡ some p') (sym (ap (λ (x : Fixed). x.id) evp.same)) row',
        IsChildOf-evolves p p' old t evp.same ev.same ch,
        superseded_stays p.status p'.status evp.status_step sup,
      )

  lineage_after : (k : String) (t : Task) → find_task k db' ≡ some t → HasLineage db' t
  lineage_after k t h = elim (traced db db' limit w lawful done k t h) [
    | inl (e, _) ↦ Origin-HasLineage t (inserted t e).origin
    | inr (old, f, ev) ↦ lineage_kept old t ev (wf.lineage k old f)
  ]

  -- A task that is not superseded yet is no row's parent.
  childless :
      (k : String) (t p : Task)
      → find_task k db ≡ some t
      → t.parent_task_id ≡ some p.id
      → find_task p.id db ≡ some p
      → is_superseded p.status ≡ false
      → ⊥
  childless k t p h e row live = elim (wf.lineage k t h) [
    | inl r ↦ cc (r.parent)
    | inr (q, row', ch, sup) ↦
        let same_id : q.id ≡ p.id = cc (ch.parent) in
        let same : q ≡ p = cc (ap (λ j. find_task j db) same_id) in
        cc (ap (λ (x : Task). is_superseded x.status) same)
  ]

  -- The new task is no sibling of a row that was there.
  no_sibling :
      (k p : String) (a t t' : Task)
      → Origin db limit w a
      → find_task k db ≡ some t
      → Evolves t t'
      → a.parent_task_id ≡ some p
      → t'.parent_task_id ≡ some p
      → ⊥
  no_sibling k p a t t' (root r) h ev pa pt = cc (r.parent)
  no_sibling k p a t t' (child old new e row live sup ch _) h ev pa pt =
      let same_id : old.id ≡ new.id = id-find (λ (x : Task). x.id) new.id db.tasks old row in
      childless k t old h
        (cc (ap (λ (x : Fixed). x.parent_task_id) ev.same, pa, pt, ch.parent, same_id))
        (ap (λ k. find_task k db) same_id ∙ row) live

  one_child_after :
      (j k p : String) (s t : Task)
      → find_task j db' ≡ some s
      → find_task k db' ≡ some t
      → s.parent_task_id ≡ some p
      → t.parent_task_id ≡ some p
      → s.id ≡ t.id
  one_child_after j k p s t hs ht ps pt =
      both (traced db db' limit w lawful done j s hs) (traced db db' limit w lawful done k t ht)
    where
      both :
          (((w.added ≡ some s) × (s.id ≡ j))
            ⊎ ((o : Task) × (find_task j db ≡ some o) × Evolves o s))
          → (((w.added ≡ some t) × (t.id ≡ k))
              ⊎ ((o : Task) × (find_task k db ≡ some o) × Evolves o t))
          → s.id ≡ t.id
      both (inl (a, _)) (inl (b, _)) = ap (λ (x : Task). x.id) (some-inj (sym a ∙ b))
      both (inl (a, _)) (inr (o, h, ev)) =
          absurd (no_sibling k p s o t (inserted s a).origin h ev ps pt)
      both (inr (o, h, ev)) (inl (b, _)) =
          absurd (no_sibling j p t o s (inserted t b).origin h ev pt ps)
      both (inr (o, h, ev)) (inr (o', h', ev')) =
          let old_ids =
            wf.one_child j k p o o' h h' (sym (ap (λ (x : Fixed). x.parent_task_id) ev.same) ∙ ps)
              (sym (ap (λ (x : Fixed). x.parent_task_id) ev'.same) ∙ pt) in
          cc (old_ids, ap (λ (x : Fixed). x.id) ev.same, ap (λ (x : Fixed). x.id) ev'.same)

  -- the task that a new event names is there after the commit
  named_after :
      (o : Option Task) (k : String) → w.added ≡ o → IsNamed db o k → find_task k db' ≡ none → ⊥
  named_after none k e n absent = cc (n, absent_before db db' limit w lawful done k absent)
  named_after (some a) k e (inl n) absent =
      cc (n, absent_before db db' limit w lawful done k absent)
  named_after (some a) k e (inr n) absent =
      cc (added_found db db' limit w lawful done a e, n, absent)

  unnamed :
      (k : String) (es : List TaskEvent)
      → All (λ (e : TaskEvent). IsNamed db w.added e.task_id) es
      → find_task k db' ≡ none
      → max_sequence k (es ++ db.events) ≡ 0
  unfolding max_sequence
  unnamed k [] _ absent = wf.events_known k (absent_before db db' limit w lawful done k absent)
  unnamed k (e ∷ es) n absent = elim (Bool-cases (e.task_id == k)) [
    | inl same ↦ absurd (
        named_after w.added e.task_id refl n.0
          (ap (λ j. find_task j db') ((eq_iff e.task_id k).0 same) ∙ absent))
    | inr other ↦ rw other (unnamed k es n.1 absent)
  ]

  -- Lawful work keeps the database well formed.
  pub commit-IsWellFormed : IsWellFormed limit db'
  commit-IsWellFormed = record {
    closed = commit-IsClosed;
    depth_bounded = depth_after;
    lineage = lineage_after;
    one_child = one_child_after;
    events_known = λ k absent.
        rw (events_after db db' limit w lawful done)
          (unnamed k w.new_events lawful.events_named absent);
    events_ordered = rw (events_after db db' limit w lawful done) (
        InOrder-append db.events w.new_events
          (lawful.events_ok wf.events_known (added-IsFresh db db' limit w lawful done))
          wf.events_ordered);
  }
