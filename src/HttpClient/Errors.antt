-- ===== src/HttpClient/Errors.antt =====
-- http_client/errors.py.
--
-- A mapped exception keeps the number of the one that it is raised from.
use resilience_kit.Prelude.{ℕ, Option, none, some, leb, if◌then◌else◌}
use resilience_kit.Exceptions.{
  Exn, Outcome, returned, raised, known, isinstance, external_timeout_error, external_service_error,
  transient_error,
}
use resilience_kit.HttpClient.{timeout_exception, http_status_error, request_error}

unfoldable pub raise_for_server_error : ℕ → Option Exn
raise_for_server_error status =
    if leb 500 status
    then some (record { cls = known external_timeout_error; payload = status })
    else none

-- The handlers of `map_httpx_errors`.
unfoldable pub map_error : Exn → Exn
map_error e =
    if isinstance e timeout_exception
    then record e { cls = known external_timeout_error }
    else if isinstance e http_status_error
    then record e { cls = known external_service_error }
    else if isinstance e request_error
    then record e { cls = known transient_error }
    else e

unfoldable pub map_httpx_errors : {A : Type 0} → Outcome A → Outcome A
unfolding map_error
map_httpx_errors (returned a) = returned a
map_httpx_errors (raised e) = raised (map_error e)
