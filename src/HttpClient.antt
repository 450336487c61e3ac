-- ===== src/HttpClient.antt =====
-- src/resilience_kit/http_client: what httpx works with. Its parts are in the children.
--
-- httpx is not part of the repository: its exceptions are classes under `Exception`, and sending a
-- request over the network is a function `Wire` that moves a state of the model's choice.
pub mod Errors
pub mod DnsPin
pub mod Idempotency
pub mod Auth
pub mod Client
use resilience_kit.Prelude.{ℕ, String, Option}
use resilience_kit.Prelude.Dict.{Dict}
use resilience_kit.Exceptions.{Cls, known, user, Outcome, exception}

abbrev pub http_error : Cls
http_error = user 10 (known exception)

abbrev pub request_error : Cls
request_error = user 11 http_error

abbrev pub transport_error : Cls
transport_error = user 12 request_error

abbrev pub timeout_exception : Cls
timeout_exception = user 13 transport_error

abbrev pub http_status_error : Cls
http_status_error = user 14 http_error

-- `httpx.Request`: the host that is connected to, the `Host` header and the TLS server name where
-- they are set apart from it, the other headers, and a number for path, query and body.
pub record Request : Type 0 where
  pub method : String
  pub url_host : String
  pub host_header : Option String
  pub sni_hostname : Option String
  pub headers : Option (Dict String)
  pub content : ℕ

pub record Response : Type 0 where
  pub status_code : ℕ
  pub body : ℕ

abbrev pub Wire : Type 0 → Type 0
Wire T = Request → T → T × Outcome Response
