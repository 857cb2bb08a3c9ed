-- ===== src/Api/History.antt =====
-- A task's history over any sequence of requests.
use fleet_api.Base.{
  ◌≡◌, refl, sym, ◌∙◌, subst, ◌⊎◌, inl, inr, true, some, List, [], ◌∷◌, is_some, String, arith,
}
use fleet_api.Task.Status.{TaskStatus, cancelled, valid_transitions, is_superseded}
use fleet_api.Task.Row.{Task}
use fleet_api.Task.Evolution.{Evolves, Evolves-refl, fixed}
use fleet_api.Settings.{Settings, Ambient}
use fleet_api.Store.{Db, find_task}
use fleet_api.Store.Kept.{KeptAs, kept}
use fleet_api.Api.{Externals, Request, handle, serve}
use fleet_api.Api.Commits.{handle-cases, work_of-IsLawful}

-- A path in the graph of VALID_TRANSITIONS.
infix 40 ◌⟶*◌
pub data ◌⟶*◌ (s : TaskStatus) : TaskStatus → Type 0 where
  here : s ⟶* s
  next : {t u : TaskStatus} → s ⟶* t → valid_transitions t u ≡ true → s ⟶* u

pub record Continues (old new : Task) : Type 0 where
  pub same : fixed new ≡ fixed old
  pub path : old.status ⟶* new.status
  pub started_kept : is_some old.started_at ≡ true → new.started_at ≡ old.started_at

extend :
    {s : TaskStatus} (t u : TaskStatus) → s ⟶* t → (u ≡ t) ⊎ (valid_transitions t u ≡ true) → s ⟶* u
extend {s} t u p (inl e) = subst (λ x. s ⟶* x) (sym e) p
extend t u p (inr v) = next p v

pub Continues-refl : (t : Task) → Continues t t
Continues-refl t = record { same = refl; path = here; started_kept = λ _. refl }

pub Continues-step : {a b c : Task} → Continues a b → Evolves b c → Continues a c
Continues-step {a} {b} {c} h e = record {
  same = e.same ∙ h.same;
  path = extend b.status c.status h.path e.status_step;
  started_kept = λ p. let q = h.started_kept p in e.started_kept (rw q p) ∙ q;
}

-- the states that a task does not leave
abbrev pub IsFinal : TaskStatus → Type 0
IsFinal s = (s ≡ cancelled) ⊎ (is_superseded s ≡ true)

final_step : (s t : TaskStatus) → IsFinal s → valid_transitions s t ≡ true → ⊥
unfolding valid_transitions is_superseded
final_step s t f v = ground arith

final_path : (s t : TaskStatus) → IsFinal s → s ⟶* t → t ≡ s
final_path s t f here = refl
final_path s t f (next {t = u} p v) =
    let same = final_path s u f p in
    absurd (final_step s t f (subst (λ x. valid_transitions x t ≡ true) same v))

module _ (ext : Externals) (settings : Settings) where
  handle-kept :
      (call : Ambient) (r : Request) (db : Db) (k : String) (t : Task)
      → find_task k db ≡ some t
      → KeptAs t (find_task k (handle ext settings call r db))
  handle-kept call r db k t h = elim (handle-cases ext settings call db r) [
    | inl same ↦ rw same (t, h, Evolves-refl t)
    | inr done ↦ kept db _ _ _ (work_of-IsLawful ext settings call db r) done k t h
  ]

  serve-kept :
      (a t : Task) (k : String) (rs : List (Ambient × Request)) (db : Db)
      → Continues a t
      → find_task k db ≡ some t
      → (t' : Task) × (find_task k (serve ext settings rs db) ≡ some t') × Continues a t'
  unfolding serve
  serve-kept a t k [] db c h = (t, h, c)
  serve-kept a t k ((call, r) ∷ rs) db c h =
      let (t', h', e) = handle-kept call r db k t h in
      serve-kept a t' k rs (handle ext settings call r db) (Continues-step c e) h'

  -- Whatever requests are served, a task that is there stays there: its identity, input, lineage and
  -- keys are what they were, its status has moved along VALID_TRANSITIONS only, and the time of its
  -- start, once set, is kept.
  pub task_history :
      (rs : List (Ambient × Request)) (db : Db) (k : String) (t : Task)
      → find_task k db ≡ some t
      → (t' : Task) × (find_task k (serve ext settings rs db) ≡ some t') × Continues t t'
  task_history rs db k t h = serve-kept t t k rs db (Continues-refl t) h

  -- A task that has reached cancelled, retasked or redirected keeps that status whatever is served.
  pub closed_status :
      (rs : List (Ambient × Request)) (db : Db) (k : String) (t : Task)
      → find_task k db ≡ some t
      → IsFinal t.status
      → (t' : Task) × (find_task k (serve ext settings rs db) ≡ some t') × (t'.status ≡ t.status)
  closed_status rs db k t h final =
      let (t', found, c) = task_history rs db k t h in
      (t', found, final_path t.status t'.status final c.path)
