-- ===== src/EventStream/Served.antt =====
-- The stream while the server answers requests.
use mathlib.Core.List.{append_assoc, append-nil}
use fleet_api.Base.{
  ℕ, ◌<◌, ◌≡◌, refl, sym, ap, ◌∙◌, subst, inl, inr, String, true, false, List, [], ◌∷◌, ◌++◌, All,
  Bool-cases, arith, select, sort, insert, ltb, ◌==◌, eq_iff,
}
use fleet_api.Task.Row.{TaskEvent}
use fleet_api.Settings.{Settings, Ambient}
use fleet_api.Store.{Db, max_sequence, InOrder}
use fleet_api.Store.Kept.{events_after}
use fleet_api.Store.WellFormed.{IsWellFormed}
use fleet_api.Paging.Keys.{All-sort}
use fleet_api.Api.{Externals, Request, handle, serve, work_of}
use fleet_api.Api.Commits.{handle-cases, work_of-IsLawful}
use fleet_api.Api.Invariant.{serve-IsWellFormed}
use fleet_api.EventStream.{is_earlier, task_log, event_stream}
use fleet_api.EventStream.Order.{Grows, ends, grows, IsOrdered, after}
use fleet_api.EventStream.Complete.{IsPart, event_stream-IsPart}

-- all numbers are lower
abbrev IsBelow : ℕ → List TaskEvent → Type 0
IsBelow n es = All (λ (y : TaskEvent). y.sequence < n) es

IsBelow-select :
    (t : String) (n : ℕ) (es : List TaskEvent)
    → max_sequence t es < n
    → IsBelow n (select (λ (e : TaskEvent). e.task_id == t) es)
unfolding select max_sequence
IsBelow-select t n [] h = tt
IsBelow-select t n (e ∷ es) h = elim (Bool-cases (e.task_id == t)) [
  | inl own ↦ rw own (ground arith, IsBelow-select t n es (ground arith))
  | inr own ↦ rw own (IsBelow-select t n es (ground arith))
]

insert-last :
    (e : TaskEvent) (es : List TaskEvent)
    → IsBelow e.sequence es
    → insert is_earlier e es ≡ es ++ (e ∷ [])
unfolding insert
insert-last e [] h = refl
insert-last e (y ∷ es) h =
    let later : ltb y.sequence e.sequence ≡ true = ground arith in
    ground (arith, insert-last e es h.1)

IsOrdered-snoc :
    (e : TaskEvent) (es : List TaskEvent)
    → IsBelow e.sequence es
    → IsOrdered es
    → IsOrdered (es ++ (e ∷ []))
IsOrdered-snoc e [] h o = (tt, tt)
IsOrdered-snoc e (y ∷ es) h o = (above es o.0, IsOrdered-snoc e es h.1 o.1)
  where
    above :
        (xs : List TaskEvent)
        → All (λ (x : TaskEvent). ltb y.sequence x.sequence ≡ true) xs
        → All (λ (x : TaskEvent). ltb y.sequence x.sequence ≡ true) (xs ++ (e ∷ []))
    above [] a = (ground (arith, h.0), tt)
    above (x ∷ xs) a = (a.0, above xs a.1)

-- the log of a list of rows, the newest first
abbrev log_of : String → List TaskEvent → List TaskEvent
log_of t es = sort is_earlier (select (λ (e : TaskEvent). e.task_id == t) es)

log-IsBelow :
    (t : String) (n : ℕ) (es : List TaskEvent) → max_sequence t es < n → IsBelow n (log_of t es)
log-IsBelow t n es h =
    All-sort (λ (y : TaskEvent). y.sequence < n) is_earlier
      (select (λ (e : TaskEvent). e.task_id == t) es) (IsBelow-select t n es h)

newest :
    (e : TaskEvent) (es : List TaskEvent)
    → InOrder [] (e ∷ es)
    → max_sequence e.task_id es < e.sequence
newest e es (first, rest) = subst (λ l. max_sequence e.task_id l < e.sequence) (append-nil es) first

log-own :
    (t : String) (e : TaskEvent) (es : List TaskEvent)
    → InOrder [] (e ∷ es)
    → (e.task_id == t) ≡ true
    → log_of t (e ∷ es) ≡ log_of t es ++ (e ∷ [])
unfolding select sort
log-own t e es h own = rw own (
    insert-last e (log_of t es) (
      log-IsBelow t e.sequence es
        (subst (λ k. max_sequence k es < e.sequence) ((eq_iff e.task_id t).0 own) (newest e es h))))

log-other :
    (t : String) (e : TaskEvent) (es : List TaskEvent)
    → (e.task_id == t) ≡ false
    → log_of t (e ∷ es) ≡ log_of t es
unfolding select
log-other t e es other = rw other refl

log-IsOrdered : (t : String) (es : List TaskEvent) → InOrder [] es → IsOrdered (log_of t es)
unfolding select sort
log-IsOrdered t [] h = tt
log-IsOrdered t (e ∷ es) h = elim (Bool-cases (e.task_id == t)) [
  | inl own ↦ subst IsOrdered (sym (log-own t e es h own)) (
      IsOrdered-snoc e (log_of t es)
        (log-IsBelow t e.sequence es (
          subst (λ k. max_sequence k es < e.sequence) ((eq_iff e.task_id t).0 own) (newest e es h)))
        (log-IsOrdered t es h.1))
  | inr other ↦ subst IsOrdered (sym (log-other t e es other)) (log-IsOrdered t es h.1)
]

log-append :
    (t : String) (new old : List TaskEvent)
    → InOrder [] (new ++ old)
    → (more : List TaskEvent) × (log_of t (new ++ old) ≡ log_of t old ++ more)
log-append t [] old h = ([], sym (append-nil (log_of t old)))
log-append t (e ∷ new) old h =
    let (more, eq) = log-append t new old h.1 in
    elim (Bool-cases (e.task_id == t)) [
      | inl own ↦ (
        more ++ (e ∷ []),
        log-own t e (new ++ old) h own
            ∙ (ap (λ l. l ++ (e ∷ [])) eq ∙ append_assoc (log_of t old) more (e ∷ [])),
      )
      | inr other ↦ (more, log-other t e (new ++ old) other ∙ eq)
    ]

module _ (ext : Externals) (settings : Settings) where
  -- the databases after each of some batches of requests, and the last of them
  abbrev pub visited : Db → List (List (Ambient × Request)) → List Db
  visited db [] = []
  visited db (rs ∷ batches) = serve ext settings rs db ∷ visited (serve ext settings rs db) batches

  abbrev pub final : Db → List (List (Ambient × Request)) → Db
  final db [] = db
  final db (rs ∷ batches) = final (serve ext settings rs db) batches

  serve-adds :
      (rs : List (Ambient × Request)) (db : Db)
      → (new : List TaskEvent) × ((serve ext settings rs db).events ≡ new ++ db.events)
  unfolding serve
  serve-adds [] db = ([], refl)
  serve-adds ((call, r) ∷ rs) db =
      let (later, eq) = serve-adds rs (handle ext settings call r db) in
      elim (handle-cases ext settings call db r) [
        | inl same ↦ (later, eq ∙ ap (λ (d : Db). later ++ d.events) same)
        | inr done ↦
            let new = (work_of ext settings call r db).new_events in
            (
              later ++ new,
              eq
                  ∙ (ap (λ l. later ++ l)
                        (events_after db _ _ _ (work_of-IsLawful ext settings call db r) done)
                      ∙ sym (append_assoc later new db.events)),
            )
      ]

  grown :
      (t : String) (rs : List (Ambient × Request)) (db : Db)
      → IsWellFormed settings.fleet_lineage_max_depth db
      → (more : List TaskEvent) × (task_log t (serve ext settings rs db) ≡ task_log t db ++ more)
  unfolding task_log
  grown t rs db wf =
      let (new, eq) = serve-adds rs db in
      let ordered =
        subst (InOrder []) eq (serve-IsWellFormed ext settings rs db wf).events_ordered in
      let (more, appended) = log-append t new db.events ordered in
      (more, ap (log_of t) eq ∙ appended)

  visited-Grows :
      (t : String) (batches : List (List (Ambient × Request))) (db : Db)
      → IsWellFormed settings.fleet_lineage_max_depth db
      → Grows t (task_log t db) (visited db batches) (task_log t (final db batches))
  visited-Grows t [] db wf = ends
  visited-Grows t (rs ∷ batches) db wf =
      let (more, eq) = grown t rs db wf in
      grows more eq (
        subst
          (λ l.
            Grows t l (visited (serve ext settings rs db) batches)
              (task_log t (final db (rs ∷ batches))))
          eq
          (visited-Grows t batches (serve ext settings rs db)
            (serve-IsWellFormed ext settings rs db wf)))

  final-IsWellFormed :
      (batches : List (List (Ambient × Request))) (db : Db)
      → IsWellFormed settings.fleet_lineage_max_depth db
      → IsWellFormed settings.fleet_lineage_max_depth (final db batches)
  final-IsWellFormed [] db wf = wf
  final-IsWellFormed (rs ∷ batches) db wf =
      final-IsWellFormed batches (serve ext settings rs db)
        (serve-IsWellFormed ext settings rs db wf)

  -- Whatever requests the server serves between the polls of a stream, from a well-formed database on:
  -- the stream sends the task's events above the client's last number, each once, in their order and
  -- without a gap, and while it waits for the next poll it has sent all that the last poll could find.
  pub event_stream-serve :
      (task_id : String) (last_event_id interval : ℕ) (batches : List (List (Ambient × Request)))
      (db : Db)
      → IsWellFormed settings.fleet_lineage_max_depth db
      → IsPart
          (after last_event_id (task_log task_id (final db batches)))
          (event_stream task_id last_event_id interval db (visited db batches))
  event_stream-serve t last interval batches db wf =
      event_stream-IsPart t last interval db (visited db batches) (task_log t (final db batches))
        (grows (task_log t db) refl (visited-Grows t batches db wf))
        (unfold task_log in
          log-IsOrdered t (final db batches).events
            (final-IsWellFormed batches db wf).events_ordered)
