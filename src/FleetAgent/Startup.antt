-- ===== src/FleetAgent/Startup.antt =====
-- src/fleet_agent/registration.py: the sidecar registers its agent with the server.
use fleet_api.Base.{ℕ, zero, suc, ◌+◌, ◌*◌, String, Bool, Option, ok, err, min, if◌then◌else◌}
use fleet_api.Store.{Db}
use fleet_api.Agents.Schema.{is_accepted_body}
use fleet_api.Registry.{Registration, register_agent}

-- What an attempt to post comes to: the server answers, its clock reading given; it works on the request
-- but the answer is a status that is neither 200, 201 nor from 400 to 499; an answer from 400 to 499 in the
-- server's place, as a proxy's; a ConnectError, or another status without effect; or any other exception.
pub data Contact : Type 0 where
  answered broken : ℕ → Contact
  declined refused raised : Contact

-- how `self_register` ends: it returns, raises the RuntimeError, exits, or raises something else
pub data Ending : Type 0 where
  registered rejected exited failed : Ending

pub record Startup : Type 0 where
  pub ending : Ending
  pub waited : ℕ
  pub db : Db

-- seconds
abbrev pub base_backoff : ℕ
base_backoff = 5

abbrev pub max_backoff : ℕ
max_backoff = 60

abbrev pub max_retries : ℕ
max_retries = 10

-- the database after the server's work; `accepts` is the schema of the body
abbrev pub served : (Registration → Bool) → ℕ → Registration → Db → Db
served accepts now r db =
    if accepts r then elim (register_agent now r db) [ ok (a, db') ↦ db' | err e ↦ db ] else db

abbrev pub stopped : Ending → Db → Startup
stopped ending db = record { ending = ending; waited = 0; db = db }

-- status 200 or 201, the 409 for another key, or the 422 of the schema
abbrev pub answer : (Registration → Bool) → ℕ → Registration → Db → Startup
answer accepts now r db =
    if accepts r
    then elim (register_agent now r db) [
      | ok (a, db') ↦ stopped registered db'
      | err e ↦ stopped rejected db
    ]
    else stopped rejected db

abbrev pub slept : ℕ → Startup → Startup
slept backoff later = record later { waited = backoff + later.waited }

module _ (accepts : Registration → Bool) where
  -- The loop, with `rounds` left; `contact` tells the attempts by their numbers.
  unfoldable pub register_rounds : (ℕ → Contact) → Registration → ℕ → ℕ → ℕ → Db → Startup
  unfolding register_agent
  register_rounds contact r zero attempt backoff db = stopped exited db
  register_rounds contact r (suc rounds) attempt backoff db =
      let backoff' = min (backoff * 2) max_backoff in
      let after_work : ℕ → Startup =
        λ now. register_rounds contact r rounds (attempt + 1) backoff' (served accepts now r db) in
      let later : Startup = register_rounds contact r rounds (attempt + 1) backoff' db in
      elim (contact attempt) [
        | answered now ↦ answer accepts now r db
        | broken now ↦ slept backoff (after_work now)
        | declined ↦ stopped rejected db
        | refused ↦ slept backoff later
        | raised ↦ stopped failed db
      ]

unfoldable pub self_register :
    {Bytes : Type 0}
    → (String → String)
    → (String → Option Bytes)
    → (Bytes → ℕ)
    → (ℕ → Contact)
    → Registration
    → Db
    → Startup
unfolding register_rounds is_accepted_body
self_register strip b64decode size contact r db =
    register_rounds (is_accepted_body strip b64decode size) contact r max_retries 1 base_backoff db
