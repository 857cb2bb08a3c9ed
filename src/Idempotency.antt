-- ===== src/Idempotency.antt =====
-- `check_idempotency` of src/fleet_api/tasks/crud.py. `digest` is the SHA-256 of the canonical JSON
-- text, of which the code uses only that it is a function of the input.
use fleet_api.Base.{String, Option, none, some, Result, ok, err, ◌==◌, if◌then◌else◌}
use fleet_api.Errors.{ErrorCode, idempotency_mismatch}
use fleet_api.Json.{Dict}
use fleet_api.Task.Row.{Task}
use fleet_api.Store.{Db, find_by_key}

module _ (digest : Dict → String) where
  abbrev pub match_input : Dict → Option Task → Result ErrorCode (Option Task)
  match_input input none = ok none
  match_input input (some existing) =
      if digest existing.input == digest input then ok (some existing) else err idempotency_mismatch

  unfoldable pub check_idempotency : Db → String → Dict → Result ErrorCode (Option Task)
  check_idempotency db key input = match_input input (find_by_key key db.tasks)

  -- `if idempotency_key is not None: existing = check_idempotency(...)`
  unfoldable pub check_optional_key : Db → Option String → Dict → Result ErrorCode (Option Task)
  unfolding check_idempotency
  check_optional_key db none input = ok none
  check_optional_key db (some key) input = check_idempotency db key input
