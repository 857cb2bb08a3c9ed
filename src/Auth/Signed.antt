-- ===== src/Auth/Signed.antt =====
-- A request that the sidecar signs is accepted by the server.
use fleet_api.Base.{ℕ, ◌≤◌, String, false, ◌≡◌, refl, some, ok, ◌==◌, arith}
use Prim.Native.String.{◌++◌}
use fleet_api.Base.Texts.{drop_prefix-append, split_colon-append, has_colon}
use fleet_api.Agent.{Agent}
use fleet_api.Store.{Db, find_agent}
use fleet_api.Auth.{
  Crypto, IsCrypto, Request, is_unprotected, build_signing_string, is_suspended,
  parse_authorization_header, validate_timestamp, signed_path, distance, replay_window,
  database_lookup, require_auth, sign_request,
}

module _ (c : Crypto) (h : IsCrypto c) where
  open c use {
    Bytes, PrivateKey, b64encode, b64decode, isoformat, from_public_bytes, public_of, sign,
  }

  -- the header of `sign_request` reads back
  parse-sign :
      (k : PrivateKey) (agent_id : String) (message : Bytes)
      → (agent_id == "") ≡ false
      → has_colon agent_id ≡ false
      → parse_authorization_header c
          ("Signature " ++ (agent_id ++ (":" ++ b64encode (sign k message))))
        ≡ some (agent_id, sign k message)
  unfolding parse_authorization_header
  parse-sign k agent_id message filled plain =
      rw
        (
          parse_authorization_header,
          drop_prefix-append "Signature " (agent_id ++ (":" ++ b64encode (sign k message))),
        )
        (rw (split_colon-append agent_id (b64encode (sign k message)) plain)
          (rw (filled, h.sign_not_empty k message, h.b64decode_b64encode (sign k message)) refl))

  validate-isoformat :
      (now later : ℕ)
      → distance later now ≤ replay_window
      → validate_timestamp c later (isoformat now) ≡ some now
  unfolding validate_timestamp
  validate-isoformat now later recent =
      rw (validate_timestamp, h.fromisoformat_isoformat now) (ground arith)

  -- A request is accepted when it carries the headers that `sign_request` makes for its method, its
  -- target with the query string and its body, with the key registered for an agent that is not
  -- suspended, and reaches the server at most five minutes from the time of signing. The agent's
  -- identifier is not empty and has no colon.
  pub require_auth-sign_request :
      (now later : ℕ) (db : Db) (a : Agent) (raw : Bytes) (k : PrivateKey) (r : Request c)
      → (a.id == "") ≡ false
      → has_colon a.id ≡ false
      → find_agent a.id db ≡ some a
      → b64decode a.public_key ≡ some raw
      → from_public_bytes raw ≡ some (public_of k)
      → is_suspended c (some a) ≡ false
      → distance later now ≤ replay_window
      → is_unprotected r.path ≡ false
      → r.authorization ≡ some ((sign_request c now r.method (signed_path c r) r.body k a.id).0)
      → r.x_fleet_timestamp ≡ some ((sign_request c now r.method (signed_path c r) r.body k a.id).1)
      → require_auth c later (database_lookup c db) r
        ≡ ok (some (record { agent_id = a.id; public_key = public_of k }))
  unfolding require_auth sign_request database_lookup
  require_auth-sign_request now later db a raw k r filled plain known stored decoded free recent
        protected auth stamp =
      let message = build_signing_string c r.method (signed_path c r) (isoformat now) r.body in
      rw (protected, auth)
        (rw (parse-sign k a.id message filled plain) (
          rw stamp (
            rw (validate-isoformat now later recent)
              (rw (known, stored, decoded, free, h.verify_sign k message) refl))))
