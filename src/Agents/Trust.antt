-- ===== src/Agents/Trust.antt =====
-- An agent that has registered can sign its requests.
use fleet_api.Base.{
  ℕ, ◌≤◌, ◌≡◌, refl, inl, inr, String, true, false, some, List, [], ◌∷◌, ok, arith, ◌==◌, eq_iff,
  eq_refl, is_some, Option-cases,
}
use fleet_api.Base.Chars.{codes, is_id_char, before_end, all_chars}
use fleet_api.Base.Texts.{has_colon}
use fleet_api.Agent.{Agent}
use fleet_api.Store.{Db, find_agent, find, id-find}
use fleet_api.Registry.{Registration, register_agent, new_agent}
use fleet_api.Auth.{
  Crypto, IsCrypto, Request, is_unprotected, is_suspended, signed_path, distance, replay_window,
  database_lookup, require_auth, sign_request,
}
use fleet_api.Auth.Signed.{require_auth-sign_request}
use fleet_api.Agents.Schema.{validate_agent_id, is_accepted_body, is_agent_id_match, starts_well}

-- A text that the pattern matches has no colon; a newline at its end is none.
matched_colon :
    (s : String) → all_chars is_id_char (before_end (codes s)) ≡ true → has_colon s ≡ false
unfolding all_chars before_end
matched_colon String.[] h = refl
matched_colon (String.◌∷◌ c String.[]) h = ground arith
matched_colon (String.◌∷◌ c (String.◌∷◌ d s)) h = ground (arith, matched_colon (String.◌∷◌ d s))

starts_well-all_chars : (cs : List ℕ) → starts_well cs ≡ true → all_chars is_id_char cs ≡ true
unfolding all_chars
starts_well-all_chars [] h = refl
starts_well-all_chars (c ∷ cs) h = ground arith

accepted_id :
    (strip : String → String) (v : String)
    → is_some (validate_agent_id strip v) ≡ true
    → ((v == "") ≡ false) × (is_agent_id_match (codes v) ≡ true)
unfolding validate_agent_id
accepted_id strip v h = ground arith

accepted_plain : (v : String) → is_agent_id_match (codes v) ≡ true → has_colon v ≡ false
unfolding is_agent_id_match
accepted_plain v h = matched_colon v (starts_well-all_chars (before_end (codes v)) h)

-- the row after a registration that is answered
registered_row :
    (now : ℕ) (r : Registration) (db db' : Db) (a : Agent)
    → register_agent now r db ≡ ok (a, db')
    → (find_agent a.id db' ≡ some a) × (a.id ≡ r.agent_id) × (a.public_key ≡ r.public_key)
unfolding register_agent new_agent find
registered_row now r db db' a h = elim (Option-cases (find_agent r.agent_id db)) [
  | inl e ↦ ground (arith, eq_refl r.agent_id)
  | inr (b, e) ↦ ground (
    arith,
    eq_iff b.public_key r.public_key,
    id-find (λ (x : Agent). x.id) r.agent_id db.agents b e,
  )
]

module _ (strip : String → String) (c : Crypto) (h : IsCrypto c) (size : c.Bytes → ℕ) where
  open c use {Bytes, PrivateKey, b64decode, from_public_bytes, public_of}

  -- An agent whose body the schema passes and whose registration is answered can sign: any request that
  -- carries the headers that `sign_request` makes with the registered key, for the agent's identifier,
  -- is accepted on the database after the registration, at most five minutes from the time of signing,
  -- if the agent has not been suspended before.
  pub register_agent-require_auth :
      (at now later : ℕ) (r : Registration) (db db' : Db) (a : Agent) (raw : Bytes) (k : PrivateKey)
      (q : Request c)
      → is_accepted_body strip b64decode size r ≡ true
      → register_agent at r db ≡ ok (a, db')
      → b64decode r.public_key ≡ some raw
      → from_public_bytes raw ≡ some (public_of k)
      → is_suspended c (some a) ≡ false
      → distance later now ≤ replay_window
      → is_unprotected q.path ≡ false
      → q.authorization
        ≡ some ((sign_request c now q.method (signed_path c q) q.body k r.agent_id).0)
      → q.x_fleet_timestamp
        ≡ some ((sign_request c now q.method (signed_path c q) q.body k r.agent_id).1)
      → require_auth c later (database_lookup c db') q
        ≡ ok (some (record { agent_id = r.agent_id; public_key = public_of k }))
  unfolding is_accepted_body
  register_agent-require_auth at now later r db db' a raw k q body done decoded key free recent
        protected auth stamp =
      let (row, id, pk) = registered_row at r db db' a done in
      let (filled, matched) = accepted_id strip r.agent_id (ground arith) in
      let signed =
        require_auth-sign_request c h now later db' a raw k q (rw id filled)
          (rw id (accepted_plain r.agent_id matched)) row (rw pk decoded) key free recent protected
          (rw id auth) (rw id stamp) in
      rw (← id) signed
