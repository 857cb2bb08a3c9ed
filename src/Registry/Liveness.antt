-- ===== src/Registry/Liveness.antt =====
-- Who is marked unreachable, and who comes back.
use fleet_api.Base.{
  ℕ, ◌+◌, ◌*◌, ◌≤◌, String, ◌≡◌, inl, inr, refl, sym, ap, ◌∙◌, false, Option, none, some, List, [],
  ◌∷◌, map, ok, Bool-cases, arith, ◌==◌, eq_iff, eq_refl, if◌then◌else◌, subst, Option-cases, ◌⊎◌,
}
use fleet_api.Base.Int.{second}
use fleet_api.Agent.{Agent, AgentStatus, active, unreachable, suspended, registered}
use fleet_api.Store.{Db, find_agent, find, replace, find-replace, id-find}
use fleet_api.Registry.{
  heartbeat, beat, is_silent, is_active, is_stale, stale_ids, mem, mark, mark_all, sweep,
}

abbrev agent_id : Agent → String
agent_id a = a.id

-- the primary key of the table
abbrev pub HasKeys : List Agent → Type 0
HasKeys [] = Unit
HasKeys (a ∷ agents) = (find agent_id a.id agents ≡ none) × HasKeys agents

-- the reference: an active agent whose last heartbeat is too old becomes unreachable
abbrev pub swept : ℕ → ℕ → Option Agent → Option Agent
swept now timeout none = none
swept now timeout (some a) =
    some (if is_stale now timeout a then record a { status = unreachable } else a)

abbrev marked : List String → Option Agent → Option Agent
marked ids none = none
marked ids (some a) = some (mark ids a)

module _ (now timeout : ℕ) where
  mem-absent :
      (k : String) (agents : List Agent)
      → find agent_id k agents ≡ none
      → mem k (stale_ids now timeout agents) ≡ false
  unfolding mem stale_ids find
  mem-absent k [] h = refl
  mem-absent k (a ∷ agents) h = ground (arith, mem-absent k agents)

  mem-stale :
      (k : String) (agents : List Agent) (a : Agent)
      → HasKeys agents
      → find agent_id k agents ≡ some a
      → mem k (stale_ids now timeout agents) ≡ is_stale now timeout a
  unfolding mem stale_ids find is_active
  mem-stale k [] a u h = cc
  mem-stale k (b ∷ agents) a u h = elim (Bool-cases (b.id == k)) [
    | inl e ↦ ground (arith, eq_iff b.id k, mem-absent k agents)
    | inr e ↦ ground (arith, mem-stale k agents a u.1)
  ]

  find-mark :
      (k : String) (ids : List String) (agents : List Agent)
      → find agent_id k (map (mark ids) agents) ≡ marked ids (find agent_id k agents)
  unfolding find mark
  find-mark k ids [] = refl
  find-mark k ids (a ∷ agents) = ground (arith, find-mark k ids agents)

  find-mark_all :
      (k : String) (ids : List String) (db : Db)
      → find_agent k (mark_all ids db) ≡ marked ids (find_agent k db)
  unfolding mark
  find-mark_all k [] db = nothing (find_agent k db)
    where
      nothing : (o : Option Agent) → o ≡ marked [] o
      nothing none = refl
      nothing (some a) = ground arith
  find-mark_all k (j ∷ ids) db = find-mark k (j ∷ ids) db.agents

  -- A sweep marks exactly the active agents whose last heartbeat is older than the timeout, and does
  -- nothing to any other agent. The agents have different identifiers.
  pub sweep_lem :
      (db : Db) (k : String)
      → HasKeys db.agents
      → find_agent k (sweep now timeout db) ≡ swept now timeout (find_agent k db)
  unfolding sweep mark
  sweep_lem db k u =
      find-mark_all k (stale_ids now timeout db.agents) db ∙ rows (find_agent k db) refl
    where
      rows :
          (o : Option Agent)
          → find_agent k db ≡ o
          → marked (stale_ids now timeout db.agents) o ≡ swept now timeout o
      rows none h = refl
      rows (some a) h =
          let same : a.id ≡ k = id-find agent_id k db.agents a h in
          ap some (rw (same, mem-stale k db.agents a u h) (ground arith))

replace_absent :
    (k : String) (u : Agent) (agents : List Agent)
    → find agent_id k agents ≡ none
    → find agent_id k (replace agent_id u agents) ≡ none
replace_absent k u agents h = ground (arith, find-replace agent_id k u agents)

HasKeys-replace :
    (u : Agent) (agents : List Agent) → HasKeys agents → HasKeys (replace agent_id u agents)
unfolding replace
HasKeys-replace u [] h = tt
HasKeys-replace u (a ∷ agents) h = elim (Bool-cases (a.id == u.id)) [
  | inl e ↦ rw e (subst (λ k. find agent_id k agents ≡ none) ((eq_iff a.id u.id).0 e) h.0, h.1)
  | inr e ↦ rw e (replace_absent a.id u agents h.0, HasKeys-replace u agents h.1)
]

-- What a heartbeat that is answered has done.
heartbeat-eq-ok :
    (now : ℕ) (caller k : String) (db db' : Db) (a : Agent)
    → heartbeat now caller k db ≡ ok (a, db')
    → (old : Agent) × (caller ≡ k)
      × (find_agent k db ≡ some old)
      × (a ≡ beat now old)
      × (db' ≡ record db { agents = replace agent_id a db.agents })
unfolding heartbeat
heartbeat-eq-ok now caller k db db' a h = elim (Option-cases (find_agent k db)) [
  | inl e ↦ absurd (ground arith)
  | inr (old, e) ↦ (old, ground (arith, eq_iff caller k), e, ground arith, ground arith)
]

beat_status :
    (now : ℕ) (a : Agent) → ((beat now a).status ≡ active) ⊎ ((beat now a).status ≡ suspended)
unfolding beat is_silent
beat_status now a = cases a.status refl
  where
    cases :
        (s : AgentStatus)
        → a.status ≡ s
        → ((beat now a).status ≡ active) ⊎ ((beat now a).status ≡ suspended)
    cases registered e = inl (rw e refl)
    cases unreachable e = inl (rw e refl)
    cases active e = inl (rw e refl)
    cases suspended e = inr (rw e refl)

beat_fresh :
    (now later timeout : ℕ) (a : Agent)
    → later ≤ now + timeout * second
    → ((beat now a).id ≡ a.id) × (swept later timeout (some (beat now a)) ≡ some (beat now a))
unfolding beat is_silent is_active
beat_fresh now later timeout a le = (ground arith, ground arith)

-- A heartbeat that is answered was the agent's own and makes it active, unless it is suspended; and no
-- sweep within the timeout after it, on the same rows, changes the agent. The agents have different
-- identifiers.
pub heartbeat-lives :
    (now later timeout : ℕ) (caller k : String) (db db' : Db) (a : Agent)
    → HasKeys db.agents
    → heartbeat now caller k db ≡ ok (a, db')
    → later ≤ now + timeout * second
    → (caller ≡ k)
      × ((a.status ≡ active) ⊎ (a.status ≡ suspended))
      × (find_agent k (sweep later timeout db') ≡ some a)
heartbeat-lives now later timeout caller k db db' a u h le =
    let (old, own, row, eq, after) = heartbeat-eq-ok now caller k db db' a h in
    let (id_kept, fresh) = beat_fresh now later timeout old le in
    let id_eq : a.id ≡ k = cc (id_kept, eq, id-find agent_id k db.agents old row) in
    let found : find_agent k db' ≡ some a =
      rw (after, find-replace agent_id k a db.agents, id_eq, eq_refl k, row) refl in
    let keys : HasKeys db'.agents = rw after (HasKeys-replace a db.agents u) in
    (
      own,
      subst (λ x. (x.status ≡ active) ⊎ (x.status ≡ suspended)) (sym eq) (beat_status now old),
      sweep_lem later timeout db' k keys
          ∙ ap (swept later timeout) found
          ∙ subst (λ x. swept later timeout (some x) ≡ some x) (sym eq) fresh,
    )
