-- ===== src/Auth.antt =====
-- src/fleet_api/middleware/auth.py, `DatabaseAgentLookup` of src/fleet_api/agents/service.py, and the
-- signing side in src/fleet_agent/signing.py.
pub mod Accepted
pub mod Signed
use fleet_api.Base.{
  ℕ, String, ◌≡◌, Bool, true, false, not, ◌&&◌, ◌||◌, ◌+◌, ◌-◌, Option, none, some, Result, ok, err,
  ◌>>=◌, ◌>>◌, require, or_raise, leb, ◌==◌, if◌then◌else◌, List, [], ◌∷◌, any,
}
use Prim.Native.String.{◌++◌}
use fleet_api.Base.Texts.{drop_prefix, split_colon}
use fleet_api.Agent.{Agent, AgentStatus, registered, active, unreachable, suspended}
use fleet_api.Store.{Db, find_agent}

-- A `datetime`: with a time zone it is a moment in microseconds, and without one a reading.
pub data Datetime : Type 0 where
  aware : ℕ → Datetime
  naive : ℕ → Datetime

-- What the code takes from `hashlib`, `base64`, `datetime` and `cryptography`: `none` is a ValueError.
pub record Crypto : Type 1 where
  pub Bytes : Type 0
  pub PublicKey : Type 0
  pub PrivateKey : Type 0
  pub encode : String → Bytes
  pub sha256_hexdigest : Bytes → String
  pub b64encode : Bytes → String
  pub b64decode : String → Option Bytes
  pub isoformat : ℕ → String
  pub fromisoformat : String → Option Datetime
  pub from_public_bytes : Bytes → Option PublicKey
  pub public_of : PrivateKey → PublicKey
  pub sign : PrivateKey → Bytes → Bytes
  -- `verify key signature message`, with `false` for InvalidSignature
  pub verify : PublicKey → Bytes → Bytes → Bool

-- what the documentation of these libraries promises
pub record IsCrypto (c : Crypto) : Type 0 where
  pub b64decode_b64encode : (b : c.Bytes) → c.b64decode (c.b64encode b) ≡ some b
  pub fromisoformat_isoformat : (t : ℕ) → c.fromisoformat (c.isoformat t) ≡ some (aware t)
  pub verify_sign :
      (k : c.PrivateKey) (message : c.Bytes)
      → c.verify (c.public_of k) (c.sign k message) message ≡ true
  pub sign_not_empty :
      (k : c.PrivateKey) (message : c.Bytes) → (c.b64encode (c.sign k message) == "") ≡ false

-- An exception: an HTTPException with its code and status, one of the two types that the code
-- catches, and any other.
pub data Refusal : Type 0 where
  auth_error : String → ℕ → Refusal
  not_implemented : Refusal
  unhandled : Refusal

abbrev pub invalid_signature : Refusal
invalid_signature = auth_error "INVALID_SIGNATURE" 401

abbrev pub timestamp_expired : Refusal
timestamp_expired = auth_error "TIMESTAMP_EXPIRED" 401

abbrev pub unavailable : Refusal
unavailable = auth_error "SERVICE_UNAVAILABLE" 503

abbrev pub not_registered : Refusal
not_registered = auth_error "AGENT_NOT_REGISTERED" 401

abbrev pub not_authorized : Refusal
not_authorized = auth_error "NOT_AUTHORIZED" 403

-- five minutes in microseconds
abbrev pub replay_window : ℕ
replay_window = 300000000

abbrev pub unprotected_paths : List String
unprotected_paths = "/" ∷ "/manifest" ∷ "/agents/register" ∷ "/health" ∷ "/openapi.json" ∷ []

unfoldable pub is_unprotected : String → Bool
unfolding any
is_unprotected path = any (λ p. p == path) unprotected_paths

-- a reading without a time zone is taken as UTC
abbrev pub moment : Datetime → ℕ
moment (aware t) = t
moment (naive t) = t

abbrev pub distance : ℕ → ℕ → ℕ
distance now ts = (now - ts) + (ts - now)

module _ (c : Crypto) where
  open c use {Bytes, PublicKey, PrivateKey, encode, sha256_hexdigest, b64encode, b64decode}
  open c use {isoformat, fromisoformat, from_public_bytes, sign, verify}

  pub record AuthenticatedAgent : Type 0 where
    pub agent_id : String
    pub public_key : PublicKey

  pub record AgentLookup : Type 0 where
    pub get_agent_public_key : String → Result Refusal (Option PublicKey)
    pub is_agent_suspended : String → Result Refusal Bool

  -- the parts of a request that are signed, and the two headers
  pub record Request : Type 0 where
    pub method : String
    pub path : String
    pub query : String
    pub authorization : Option String
    pub x_fleet_timestamp : Option String
    pub body : Bytes

  abbrev pub placeholder_lookup : AgentLookup
  placeholder_lookup = record {
    get_agent_public_key = λ _. err not_implemented;
    is_agent_suspended = λ _. err not_implemented;
  }

  abbrev load_key : Option Agent → Result Refusal (Option PublicKey)
  load_key none = ok none
  load_key (some a) = do
    raw_bytes ← or_raise (b64decode a.public_key) unhandled
    key ← or_raise (from_public_bytes raw_bytes) unhandled
    ok (some key)

  abbrev pub is_suspended : Option Agent → Bool
  is_suspended none = false
  is_suspended (some a) = elim (a.status) [
    | suspended ↦ true
    | registered ↦ false
    | active ↦ false
    | unreachable ↦ false
  ]

  -- A key in the table that does not decode is a ValueError that nothing catches.
  unfoldable pub database_lookup : Db → AgentLookup
  database_lookup db = record {
    get_agent_public_key = λ agent_id. load_key (find_agent agent_id db);
    is_agent_suspended = λ agent_id. ok (is_suspended (find_agent agent_id db));
  }

  unfoldable pub build_signing_string : String → String → String → Bytes → Bytes
  build_signing_string method path timestamp body =
      encode
        (method ++ ("\n" ++ (path ++ ("\n" ++ (timestamp ++ ("\n" ++ sha256_hexdigest body))))))

  -- `none` is a ValueError
  unfoldable pub parse_authorization_header : String → Option (String × Bytes)
  parse_authorization_header header = elim (drop_prefix "Signature " header) [
    | none ↦ none
    | some payload ↦ elim (split_colon payload) [
      | none ↦ none
      | some (agent_id, sig_b64) ↦
          if agent_id == "" || sig_b64 == "" then none else elim (b64decode sig_b64) [
            | none ↦ none
            | some signature ↦ some (agent_id, signature)
          ]
    ]
  ]

  unfoldable pub validate_timestamp : ℕ → String → Option ℕ
  validate_timestamp now timestamp_str = elim (fromisoformat timestamp_str) [
    | none ↦ none
    | some ts ↦ if leb (distance now (moment ts)) replay_window then some (moment ts) else none
  ]

  -- `except NotImplementedError`
  abbrev configured : {A : Type 0} → Result Refusal A → Result Refusal A
  configured (err not_implemented) = err unavailable
  configured step = step

  abbrev pub signed_path : Request → String
  signed_path r = if r.query == "" then r.path else r.path ++ ("?" ++ r.query)

  abbrev authenticate : ℕ → AgentLookup → Request → Result Refusal AuthenticatedAgent
  authenticate now lookup r = do
    header ← or_raise r.authorization invalid_signature
    parsed ← or_raise (parse_authorization_header header) invalid_signature
    timestamp_str ← or_raise r.x_fleet_timestamp invalid_signature
    ts ← or_raise (validate_timestamp now timestamp_str) timestamp_expired
    found ← configured (lookup.get_agent_public_key parsed.0)
    public_key ← or_raise found not_registered
    suspended_now ← configured (lookup.is_agent_suspended parsed.0)
    require (not suspended_now) not_authorized
    require
        (verify public_key parsed.1
          (build_signing_string r.method (signed_path r) timestamp_str r.body))
        invalid_signature
    ok (record { agent_id = parsed.0; public_key = public_key })

  -- `ok none` on a path that needs no signature
  unfoldable pub require_auth :
      ℕ → AgentLookup → Request → Result Refusal (Option AuthenticatedAgent)
  require_auth now lookup r =
      if is_unprotected r.path then ok none else do who ← authenticate now lookup r; ok (some who)

  -- the two headers: `Authorization` and `X-Fleet-Timestamp`
  unfoldable pub sign_request : ℕ → String → String → Bytes → PrivateKey → String → String × String
  sign_request now method path body private_key agent_id =
      let timestamp = isoformat now in
      let signing_string = build_signing_string method path timestamp body in
      (
        "Signature " ++ (agent_id ++ (":" ++ b64encode (sign private_key signing_string))),
        timestamp,
      )
