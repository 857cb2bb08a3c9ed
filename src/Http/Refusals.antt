-- ===== src/Http/Refusals.antt =====
-- How the refusals of require_auth reach the client.
use Prim.Native.String.{◌++◌}
use fleet_api.Base.{ℕ, String, ◌≡◌, ◌≢◌, refl, false, some, err, ◌⊎◌, inl, inr, arith, ◌==◌, eq_iff}
use fleet_api.Base.Decimal.{decimal}
use fleet_api.Json.{Json, str, get}
use fleet_api.Store.{Db}
use fleet_api.Auth.{
  Crypto, Refusal, auth_error, not_implemented, unhandled, Request, require_auth, database_lookup,
}
use fleet_api.Http.{Response, Raised, http_exception, unexpected, respond}

-- the exception that a refusal is; `detail_of` is the text of its detail
pub raised : (String → String) → Refusal → Raised
raised detail_of (auth_error code status) = http_exception status (detail_of code)
raised detail_of not_implemented = unexpected
raised detail_of unhandled = unexpected

-- the refusals with a code, where the lookup reads the database
abbrev pub IsKnown : String → ℕ → Type 0
IsKnown code status =
    ((code ≡ "INVALID_SIGNATURE") × (status ≡ 401))
    ⊎ (((code ≡ "TIMESTAMP_EXPIRED") × (status ≡ 401))
        ⊎ (((code ≡ "AGENT_NOT_REGISTERED") × (status ≡ 401))
            ⊎ ((code ≡ "NOT_AUTHORIZED") × (status ≡ 403))))

require_auth-IsKnown :
    (c : Crypto) (now : ℕ) (db : Db) (r : Request c) (code : String) (status : ℕ)
    → require_auth c now (database_lookup c db) r ≡ err (auth_error code status)
    → IsKnown code status
unfolding require_auth database_lookup
require_auth-IsKnown c now db r code status h = ground arith

-- two texts that the test tells apart
differ : (a b : String) → (a == b) ≡ false → a ≢ b
differ a b h p = cc (h, (eq_iff a b).1 p)

module _ (str_of : Json → String) (detail_of : String → String) (method path : String) where
  -- what the client is told of a refusal
  abbrev pub told : String → ℕ → Response
  told code status = respond str_of method path (raised detail_of (auth_error code status))

  abbrev pub LosesCode : String → ℕ → Type 0
  LosesCode code status =
      ((told code status).status_code ≡ status)
      × (get "code" (told code status).content ≡ some (str ("HTTP_" ++ decimal status)))
      × (get "code" (told code status).content ≢ some (str code))

  told_401 : (code : String) → (code == "HTTP_401") ≡ false → LosesCode code 401
  unfolding respond raised get decimal
  told_401 code h = (refl, refl, λ p. differ code "HTTP_401" h (cc))

  told_403 : (code : String) → (code == "HTTP_403") ≡ false → LosesCode code 403
  unfolding respond raised get decimal
  told_403 code h = (refl, refl, λ p. differ code "HTTP_403" h (cc))

  known-LosesCode : (code : String) (status : ℕ) → IsKnown code status → LosesCode code status
  known-LosesCode code status (inl (e, s)) = rw (e, s) (told_401 "INVALID_SIGNATURE" refl)
  known-LosesCode code status (inr (inl (e, s))) = rw (e, s) (told_401 "TIMESTAMP_EXPIRED" refl)
  known-LosesCode code status (inr (inr (inl (e, s)))) =
      rw (e, s) (told_401 "AGENT_NOT_REGISTERED" refl)
  known-LosesCode code status (inr (inr (inr (e, s)))) = rw (e, s) (told_403 "NOT_AUTHORIZED" refl)

  -- Every refusal of `require_auth` that names a code reaches the client with its status, but with the
  -- code HTTP_ and that status in place of the code that it names.
  pub respond-LosesCode :
      (c : Crypto) (now : ℕ) (db : Db) (r : Request c) (code : String) (status : ℕ)
      → require_auth c now (database_lookup c db) r ≡ err (auth_error code status)
      → LosesCode code status
  respond-LosesCode c now db r code status h =
      known-LosesCode code status (require_auth-IsKnown c now db r code status h)
