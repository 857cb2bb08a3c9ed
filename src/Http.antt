-- ===== src/Http.antt =====
-- What the client of the server receives: src/fleet_api/middleware/errors.py turns an exception into a
-- response. `str_of` is Python's `str` on a value of an error's context.
pub mod Refusals
use Prim.Native.String.{◌++◌}
use fleet_api.Base.{
  ℕ, String, Bool, true, Option, none, some, List, [], ◌∷◌, ◌==◌, if◌then◌else◌, leb, ◌&&◌,
}
use fleet_api.Base.Decimal.{decimal}
use fleet_api.Errors.{
  ErrorCode, endpoint_not_found, invalid_input, execution_failed, FleetApiError, to_dict,
  http_status_of,
}
use fleet_api.Json.{
  Json, Dict, Items, nil, cons, null, num, real, stamp, arr, empty, entry, bool, str, obj, get, put,
}

pub record Response : Type 0 where
  pub status_code : ℕ
  pub content : Dict

-- The exceptions that have a handler: the program's own, the framework's with its status and the text
-- of its detail, one for a request that the schema refuses with what `errors()` lists, and any other.
pub data Raised : Type 0 where
  fleet_api_error : FleetApiError → Raised
  http_exception : ℕ → String → Raised
  validation_error : List Dict → Raised
  unexpected : Raised

abbrev pub href : String → Json
href path = obj (entry "href" (str path) empty)

unfoldable pub fleet_api_error_handler : FleetApiError → Response
unfolding to_dict
fleet_api_error_handler e = record { status_code = http_status_of e; content = to_dict e }

abbrev no_endpoint : String → String → FleetApiError
no_endpoint method path = record {
  code = endpoint_not_found;
  message = "No endpoint found at " ++ (method ++ (" " ++ path));
  suggestion = some "Check the URL and method. Use GET /manifest to discover endpoints.";
  links = some (entry "manifest" (href "/manifest") empty);
  http_status = none;
}

abbrev is_not_found : ℕ → Bool
is_not_found status = leb status 404 && leb 404 status

unfoldable pub http_exception_handler : String → String → ℕ → String → Response
unfolding to_dict decimal
http_exception_handler method path status detail =
    if is_not_found status
    then record { status_code = 404; content = to_dict (no_endpoint method path) }
    else record {
      status_code = status;
      content = entry "error" (bool true) (
          entry "code" (str ("HTTP_" ++ decimal status)) (
            entry "message" (str (if detail == "" then "HTTP " ++ decimal status else detail))
              empty));
    }

abbrev invalid_request : FleetApiError
invalid_request = record {
  code = invalid_input;
  message = "Request validation failed.";
  suggestion = some "Check the request body against the expected schema.";
  links = none;
  http_status = none;
}

abbrev internal_error : FleetApiError
internal_error = record {
  code = execution_failed;
  message = "An internal error occurred.";
  suggestion = some "This is a transient error. Retry after a short delay.";
  links = none;
  http_status = none;
}

-- `{k: v for k, v in err.items() if k != "ctx"}`
unfoldable pub without_ctx : Dict → Dict
without_ctx empty = empty
without_ctx (entry k v d) = let rest = without_ctx d in if k == "ctx" then rest else entry k v rest

unfoldable pub unhandled_exception_handler : Response
unfolding to_dict
unhandled_exception_handler = record { status_code = 500; content = to_dict internal_error }

module _ (str_of : Json → String) where
  unfoldable pub texts_of : Dict → Dict
  texts_of empty = empty
  texts_of (entry k v d) = entry k (str (str_of v)) (texts_of d)

  -- `if "ctx" in err and isinstance(err["ctx"], dict)`
  abbrev with_ctx : Option Json → Dict → Dict
  with_ctx (some (obj ctx)) clean = put "ctx" (obj (texts_of ctx)) clean
  with_ctx _ clean = clean

  unfoldable pub sanitized : List Dict → Items
  unfolding without_ctx texts_of get put
  sanitized [] = nil
  sanitized (err ∷ errors) =
      cons (obj (with_ctx (get "ctx" err) (without_ctx err))) (sanitized errors)

  unfoldable pub validation_error_handler : List Dict → Response
  unfolding to_dict sanitized put
  validation_error_handler errors = record {
    status_code = 422;
    content = put "validation_errors" (arr (sanitized errors)) (to_dict invalid_request);
  }

  -- the handler that is registered for the exception
  unfoldable pub respond : String → String → Raised → Response
  unfolding fleet_api_error_handler http_exception_handler validation_error_handler
      unhandled_exception_handler
  respond method path (fleet_api_error e) = fleet_api_error_handler e
  respond method path (http_exception status detail) =
      http_exception_handler method path status detail
  respond method path (validation_error errors) = validation_error_handler errors
  respond method path unexpected = unhandled_exception_handler
