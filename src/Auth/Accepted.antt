-- ===== src/Auth/Accepted.antt =====
-- What `require_auth` has established when it accepts.
use fleet_api.Base.{
  ℕ, ◌≤◌, String, Bool, true, false, ◌≡◌, refl, ◌↔◌, Option, none, some, Result, ok, err, ◌>>=◌,
  Option-cases, inl, inr, arith, if◌then◌else◌,
}
use fleet_api.Auth.{
  Refusal, Crypto, Datetime, AuthenticatedAgent, AgentLookup, Request, is_unprotected,
  build_signing_string, parse_authorization_header, validate_timestamp, signed_path, moment,
  distance, replay_window, authenticate, require_auth,
}

abbrev guarded : {A : Type 0} → Bool → Result Refusal A → Result Refusal (Option A)
guarded exempt step = if exempt then ok none else do value ← step; ok (some value)

guarded-eq-none :
    {A : Type 0} (exempt : Bool) (step : Result Refusal A)
    → (guarded exempt step ≡ ok none) ↔ (exempt ≡ true)
guarded-eq-none true step = (λ _. refl, λ _. refl)
guarded-eq-none false (ok value) = (λ h. cc, λ h. cc)
guarded-eq-none false (err problem) = (λ h. cc, λ h. cc)

guarded-eq-some :
    {A : Type 0} (exempt : Bool) (step : Result Refusal A) (a : A)
    → guarded exempt step ≡ ok (some a)
    → step ≡ ok a
guarded-eq-some true step a h = absurd cc
guarded-eq-some false (ok value) a h = cc
guarded-eq-some false (err problem) a h = cc

module _ (c : Crypto) where
  open c use {Bytes, fromisoformat, verify}

  -- The request carries a signature by the agent's registered key over the method, the target with
  -- its query string, the timestamp and the body; the agent is not suspended, and the timestamp is
  -- at most five minutes from the server's clock.
  pub record IsAuthentic (now : ℕ) (lookup : AgentLookup c) (r : Request c)
      (who : AuthenticatedAgent c) : Type 0 where
    pub header : String
    pub signature : Bytes
    pub timestamp : String
    pub stamp : Datetime
    pub has_header : r.authorization ≡ some header
    pub parsed : parse_authorization_header c header ≡ some (who.agent_id, signature)
    pub has_timestamp : r.x_fleet_timestamp ≡ some timestamp
    pub read : fromisoformat timestamp ≡ some stamp
    pub recent : distance now (moment stamp) ≤ replay_window
    pub known : lookup.get_agent_public_key who.agent_id ≡ ok (some who.public_key)
    pub active : lookup.is_agent_suspended who.agent_id ≡ ok false
    pub signed :
        verify who.public_key signature
          (build_signing_string c r.method (signed_path c r) timestamp r.body)
        ≡ true

  accepted :
      (now : ℕ) (lookup : AgentLookup c) (r : Request c) (who : AuthenticatedAgent c)
      → authenticate c now lookup r ≡ ok who
      → IsAuthentic now lookup r who
  unfolding validate_timestamp
  accepted now lookup r who h = elim (Option-cases r.authorization) [
    | inl e1 ↦ absurd (ground arith)
    | inr (header, e1) ↦ elim (Option-cases (parse_authorization_header c header)) [
      | inl e2 ↦ absurd (ground arith)
      | inr ((agent_id, signature), e2) ↦ elim (Option-cases r.x_fleet_timestamp) [
        | inl e3 ↦ absurd (ground arith)
        | inr (timestamp, e3) ↦ elim (Option-cases (fromisoformat timestamp)) [
          | inl e4 ↦ absurd (ground arith)
          | inr (stamp, e4) ↦ record {
            header = header;
            signature = signature;
            timestamp = timestamp;
            stamp = stamp;
            has_header = e1;
            parsed = ground arith;
            has_timestamp = e3;
            read = e4;
            recent = ground arith;
            known = ground arith;
            active = ground arith;
            signed = ground arith;
          }
        ]
      ]
    ]
  ]

  -- A request is let through without an identity exactly on the unprotected paths, and whenever an
  -- identity is returned, the request is authentic for it.
  pub require_auth-IsAuthentic :
      (now : ℕ) (lookup : AgentLookup c) (r : Request c)
      → ((require_auth c now lookup r ≡ ok none) ↔ (is_unprotected r.path ≡ true))
        × ((who : AuthenticatedAgent c)
            → require_auth c now lookup r ≡ ok (some who)
            → IsAuthentic now lookup r who)
  unfolding require_auth
  require_auth-IsAuthentic now lookup r = (
    guarded-eq-none (is_unprotected r.path) (authenticate c now lookup r),
    λ who h.
        accepted now lookup r who
          (guarded-eq-some (is_unprotected r.path) (authenticate c now lookup r) who h),
  )
