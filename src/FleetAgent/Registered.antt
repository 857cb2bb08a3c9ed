-- ===== src/FleetAgent/Registered.antt =====
-- What the sidecar's registration achieves.
use fleet_api.Base.{
  ℕ, zero, suc, ◌+◌, ◌*◌, ◌≤◌, ◌≡◌, refl, sym, subst, ◌⊎◌, inl, inr, true, false, ◌∷◌, some,
  Option-cases, Bool-cases, ok, err, min, arith, ◌==◌, eq_refl, String, Bool, Option, ap,
}
use fleet_api.Errors.{agent_exists}
use fleet_api.Agent.{Agent}
use fleet_api.Agents.Schema.{is_accepted_body}
use fleet_api.Store.{Db, find_agent, find}
use fleet_api.Registry.{Registration, register_agent, new_agent}
use fleet_api.FleetAgent.Startup.{
  Contact, answered, broken, declined, refused, raised, registered, rejected, exited, failed,
  stopped, Startup, served, answer, slept, register_rounds, self_register, max_backoff,
}

-- the agent is in the table, with the key or with another one
abbrev pub HasKey : Registration → Db → Type 0
HasKey r db =
    (a : Agent) × (find_agent r.agent_id db ≡ some a) × ((a.public_key == r.public_key) ≡ true)

abbrev pub HasOtherKey : Registration → Db → Type 0
HasOtherKey r db =
    (a : Agent) × (find_agent r.agent_id db ≡ some a) × ((a.public_key == r.public_key) ≡ false)

Contact-cases :
    (x : Contact)
    → ((now : ℕ) × (x ≡ answered now))
      ⊎ (((now : ℕ) × (x ≡ broken now)) ⊎ ((x ≡ declined) ⊎ ((x ≡ refused) ⊎ (x ≡ raised))))
Contact-cases (answered now) = inl (now, refl)
Contact-cases (broken now) = inr (inl (now, refl))
Contact-cases declined = inr (inr (inl refl))
Contact-cases refused = inr (inr (inr (inl refl)))
Contact-cases raised = inr (inr (inr (inr refl)))

-- the sleeps, if none of `rounds` attempts ends the loop
abbrev total : ℕ → ℕ → ℕ
total zero backoff = 0
total (suc rounds) backoff = backoff + total rounds (min (backoff * 2) max_backoff)

-- an attempt from `attempt` on that has come to `x`
abbrev pub Attempted : (ℕ → Contact) → Contact → ℕ → Type 0
Attempted contact x attempt = (i : ℕ) × (attempt ≤ i) × (contact i ≡ x)

module _ (accepts : Registration → Bool) (contact : ℕ → Contact) (r : Registration) where
  pub record IsStarted (attempt bound : ℕ) (db : Db) (s : Startup) : Type 0 where
    pub success : s.ending ≡ registered → (accepts r ≡ true) × HasKey r s.db
    pub refusal :
        s.ending ≡ rejected
        → (accepts r ≡ false) ⊎ (HasOtherKey r db ⊎ Attempted contact declined attempt)
    pub failure : s.ending ≡ failed → Attempted contact raised attempt
    pub exhaustion : s.ending ≡ exited → s.waited ≡ bound
    pub patience : s.waited ≤ bound

  -- What one call of the server does: the key is registered, or the schema or another key is in the way
  -- and nothing changes.
  served-cases :
      (now : ℕ) (db : Db)
      → ((answer accepts now r db ≡ stopped registered (served accepts now r db))
          × (accepts r ≡ true)
          × HasKey r (served accepts now r db))
        ⊎ ((answer accepts now r db ≡ stopped rejected db)
            × (served accepts now r db ≡ db)
            × ((accepts r ≡ false) ⊎ HasOtherKey r db))
  unfolding register_agent new_agent find
  served-cases now db = elim (Bool-cases (accepts r)) [
    | inr bad ↦ inr (rw (answer, bad) refl, rw (served, bad) refl, inl bad)
    | inl good ↦ elim (Option-cases (find_agent r.agent_id db)) [
      | inl e ↦
          let eq : register_agent now r db
              ≡ ok (new_agent now r, record db { agents = new_agent now r ∷ db.agents }) =
            rw (register_agent, e) refl in
          inl (
            rw (answer, served, good, eq) refl,
            good,
            (
              new_agent now r,
              rw (served, good, eq) (rw (eq_refl r.agent_id) refl),
              eq_refl r.public_key,
            ),
          )
      | inr (a, e) ↦ elim (Bool-cases (a.public_key == r.public_key)) [
        | inl same ↦
            let eq : register_agent now r db ≡ ok (a, db) = rw (register_agent, e, same) refl in
            inl (rw (answer, served, good, eq) refl, good, (a, rw (served, good, eq) e, same))
        | inr other ↦
            let eq : register_agent now r db ≡ err agent_exists =
              rw (register_agent, e, other) refl in
            inr (rw (answer, good, eq) refl, rw (served, good, eq) refl, inr (a, e, other))
      ]
    ]
  ]

  earlier :
      (x : Contact) (attempt : ℕ) → Attempted contact x (attempt + 1) → Attempted contact x attempt
  earlier x attempt (i, h, e) = (i, omega (arith, h), e)

  -- another key stays there, and comes from nowhere
  other_before :
      (now : ℕ) (db : Db)
      → HasOtherKey r (served accepts now r db)
      → (accepts r ≡ false) ⊎ HasOtherKey r db
  other_before now db (b, found, differs) = elim (served-cases now db) [
    | inl (eq, good, (a, e, same)) ↦ absurd cc
    | inr (eq, unchanged, why) ↦ why
  ]

  -- A failed attempt before a loop; `old` is the database that the attempt has worked on.
  slept-IsStarted :
      (attempt backoff bound : ℕ) (old db : Db) (s : Startup)
      → (HasOtherKey r db → (accepts r ≡ false) ⊎ HasOtherKey r old)
      → IsStarted (attempt + 1) bound db s
      → IsStarted attempt (backoff + bound) old (slept backoff s)
  slept-IsStarted attempt backoff bound old db s back h = record {
    success = h.success;
    refusal = λ e. why (h.refusal e);
    failure = λ e. earlier raised attempt (h.failure e);
    exhaustion = λ e. ap (λ n. backoff + n) (h.exhaustion e);
    patience = omega (arith, h.patience);
  }
    where
      why :
          ((accepts r ≡ false) ⊎ (HasOtherKey r db ⊎ Attempted contact declined (attempt + 1)))
          → (accepts r ≡ false) ⊎ (HasOtherKey r old ⊎ Attempted contact declined attempt)
      why (inl e) = inl e
      why (inr (inl o)) = elim (back o) [ inl e ↦ inl e | inr q ↦ inr (inl q) ]
      why (inr (inr d)) = inr (inr (earlier declined attempt d))

  answer-IsStarted :
      (now attempt bound : ℕ) (db : Db) → IsStarted attempt bound db (answer accepts now r db)
  answer-IsStarted now attempt bound db = elim (served-cases now db) [
    | inl (eq, good, key) ↦ subst (IsStarted attempt bound db) (sym eq) (record {
      success = λ h. (good, key);
      refusal = λ h. absurd cc;
      failure = λ h. absurd cc;
      exhaustion = λ h. absurd cc;
      patience = omega arith;
    })
    | inr (eq, same, why) ↦ subst (IsStarted attempt bound db) (sym eq) (record {
      success = λ h. absurd cc;
      refusal = λ h. elim why [ inl e ↦ inl e | inr q ↦ inr (inl q) ];
      failure = λ h. absurd cc;
      exhaustion = λ h. absurd cc;
      patience = omega arith;
    })
  ]

  rounds-IsStarted :
      (rounds attempt backoff : ℕ) (db : Db)
      → IsStarted attempt
          (total rounds backoff)
          db
          (register_rounds accepts contact r rounds attempt backoff db)
  unfolding register_rounds
  rounds-IsStarted zero attempt backoff db = record {
    success = λ h. absurd cc;
    refusal = λ h. absurd cc;
    failure = λ h. absurd cc;
    exhaustion = λ h. refl;
    patience = omega arith;
  }
  rounds-IsStarted (suc rounds) attempt backoff db =
      let later = rounds-IsStarted rounds (attempt + 1) (min (backoff * 2) max_backoff) in
      elim (Contact-cases (contact attempt)) [
        | inl (now, e) ↦ rw (register_rounds, e) (answer-IsStarted now attempt _ db)
        | inr (inl (now, e)) ↦
            rw (register_rounds, e)
              (slept-IsStarted attempt backoff _ db (served accepts now r db) _
                (other_before now db) (later (served accepts now r db)))
        | inr (inr (inl e)) ↦
            rw (register_rounds, e)
              (record {
                success = λ h. absurd cc;
                refusal = λ h. inr (inr (attempt, omega arith, e));
                failure = λ h. absurd cc;
                exhaustion = λ h. absurd cc;
                patience = omega arith;
              })
        | inr (inr (inr (inl e))) ↦
            rw (register_rounds, e)
              (slept-IsStarted attempt backoff _ db db _ (λ o. inr o) (later db))
        | inr (inr (inr (inr e))) ↦
            rw (register_rounds, e)
              (record {
                success = λ h. absurd cc;
                refusal = λ h. absurd cc;
                failure = λ h. (attempt, omega arith, e);
                exhaustion = λ h. absurd cc;
                patience = omega arith;
              })
      ]

-- Whatever becomes of the attempts: when the sidecar's registration returns, the server's schema passes
-- the body and the server has the agent with the sidecar's key; when it is rejected, the schema refuses the
-- body, or the server had another key for the agent before, or an attempt was declined with a status from 400
-- to 499 by another; when it raises something else, an attempt did; when it exits, it has slept for 435
-- seconds in all, and in no case for more.
pub self_register_lem :
    {Bytes : Type 0} (strip : String → String) (b64decode : String → Option Bytes)
    (size : Bytes → ℕ) (contact : ℕ → Contact) (r : Registration) (db : Db)
    → IsStarted
        (is_accepted_body strip b64decode size)
        contact
        r
        1
        435
        db
        (self_register strip b64decode size contact r db)
unfolding self_register
self_register_lem strip b64decode size contact r db =
    rounds-IsStarted (is_accepted_body strip b64decode size) contact r 10 1 5 db
