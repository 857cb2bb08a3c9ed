-- ===== src/Errors.antt =====
-- src/fleet_api/errors.py: the error codes and the HTTP status of each.
use fleet_api.Base.{ℕ, zero, suc, String, true, Option, none, some, Result, ◌==◌, if◌then◌else◌}
use fleet_api.Json.{Dict, empty, entry, bool, str, obj, put}

pub data ErrorCode : Type 0 where
  endpoint_not_found workflow_not_found task_not_found : ErrorCode
  invalid_signature agent_not_registered timestamp_expired not_authorized : ErrorCode
  workflow_exists agent_exists invalid_input idempotency_mismatch rate_limited : ErrorCode
  execution_timeout execution_failed executor_unreachable agent_suspended : ErrorCode
  bad_gateway deprecated_path invalid_state_transition : ErrorCode
  task_not_pausable task_not_paused pause_timeout context_rejected : ErrorCode
  retask_not_reviewable retask_depth_exceeded redirect_not_possible : ErrorCode

-- `code.value`
unfoldable pub code_value : ErrorCode → String
code_value endpoint_not_found = "ENDPOINT_NOT_FOUND"
code_value workflow_not_found = "WORKFLOW_NOT_FOUND"
code_value task_not_found = "TASK_NOT_FOUND"
code_value invalid_signature = "INVALID_SIGNATURE"
code_value agent_not_registered = "AGENT_NOT_REGISTERED"
code_value timestamp_expired = "TIMESTAMP_EXPIRED"
code_value not_authorized = "NOT_AUTHORIZED"
code_value workflow_exists = "WORKFLOW_EXISTS"
code_value agent_exists = "AGENT_EXISTS"
code_value invalid_input = "INVALID_INPUT"
code_value idempotency_mismatch = "IDEMPOTENCY_MISMATCH"
code_value rate_limited = "RATE_LIMITED"
code_value execution_timeout = "EXECUTION_TIMEOUT"
code_value execution_failed = "EXECUTION_FAILED"
code_value executor_unreachable = "EXECUTOR_UNREACHABLE"
code_value agent_suspended = "AGENT_SUSPENDED"
code_value bad_gateway = "BAD_GATEWAY"
code_value deprecated_path = "DEPRECATED_PATH"
code_value invalid_state_transition = "INVALID_STATE_TRANSITION"
code_value task_not_pausable = "TASK_NOT_PAUSABLE"
code_value task_not_paused = "TASK_NOT_PAUSED"
code_value pause_timeout = "PAUSE_TIMEOUT"
code_value context_rejected = "CONTEXT_REJECTED"
code_value retask_not_reviewable = "RETASK_NOT_REVIEWABLE"
code_value retask_depth_exceeded = "RETASK_DEPTH_EXCEEDED"
code_value redirect_not_possible = "REDIRECT_NOT_POSSIBLE"

unfoldable pub error_status_codes : ErrorCode → ℕ
error_status_codes endpoint_not_found = 404
error_status_codes workflow_not_found = 404
error_status_codes task_not_found = 404
error_status_codes invalid_signature = 401
error_status_codes agent_not_registered = 401
error_status_codes timestamp_expired = 401
error_status_codes not_authorized = 403
error_status_codes workflow_exists = 409
error_status_codes agent_exists = 409
error_status_codes invalid_input = 422
error_status_codes idempotency_mismatch = 422
error_status_codes rate_limited = 429
error_status_codes execution_timeout = 504
error_status_codes execution_failed = 500
error_status_codes executor_unreachable = 503
error_status_codes agent_suspended = 503
error_status_codes bad_gateway = 502
error_status_codes deprecated_path = 301
error_status_codes invalid_state_transition = 409
error_status_codes task_not_pausable = 409
error_status_codes task_not_paused = 409
error_status_codes pause_timeout = 408
error_status_codes context_rejected = 409
error_status_codes retask_not_reviewable = 409
error_status_codes retask_depth_exceeded = 422
error_status_codes redirect_not_possible = 409

-- `FleetAPIError`: what its constructor is given
pub record FleetApiError : Type 0 where
  pub code : ErrorCode
  pub message : String
  pub suggestion : Option String
  pub links : Option Dict
  pub http_status : Option ℕ

-- `http_status or ERROR_STATUS_CODES[code]`
abbrev pub http_status_of : FleetApiError → ℕ
http_status_of e = elim e.http_status [
  | none ↦ error_status_codes e.code
  | some zero ↦ error_status_codes e.code
  | some (suc n) ↦ suc n
]

abbrev with_suggestion : Option String → Dict → Dict
with_suggestion none result = result
with_suggestion (some text) result =
    if text == "" then result else put "suggestion" (str text) result

abbrev with_links : Option Dict → Dict → Dict
with_links none result = result
with_links (some empty) result = result
with_links (some (entry k v links)) result = put "_links" (obj (entry k v links)) result

unfoldable pub to_dict : FleetApiError → Dict
unfolding code_value put
to_dict e = with_links e.links (
    with_suggestion e.suggestion (
      entry "error" (bool true)
        (entry "code" (str (code_value e.code)) (entry "message" (str e.message) empty))))

-- A request ends with a value, with an error of the API, with the database's refusal to commit, or
-- with another exception of Python that no handler expects.
pub data Failure : Type 0 where
  api : ErrorCode → Failure
  integrity uncaught : Failure

abbrev pub Reply : Type 0 → Type 0
Reply A = Result Failure A
