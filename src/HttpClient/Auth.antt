-- ===== src/HttpClient/Auth.antt =====
-- http_client/auth.py: what the three helpers put on a request.
--
-- Bytes are numbers, and 10 is a line feed. HMAC, base64, the decimal digits of a number and the ASCII
-- text of bytes are arguments. The headers are those that are set, in order.
pub mod Canonical
mod Samples
use Prim.Native.String.{◌++◌ as str_append}
use resilience_kit.Prelude.{
  ℕ, ◌/◌, String, List, [], ◌∷◌, ◌++◌, Option, none, some, is_empty, ◌||◌, if◌then◌else◌,
}
use resilience_kit.Exceptions.{Exn, Outcome, returned, raised, known, validation_error}

abbrev pub Bytes : Type 0
Bytes = List ℕ

pub record Request : Type 0 where
  pub method : Bytes
  pub raw_path : Bytes
  pub content : Bytes

-- What is signed.
pub record Signed : Type 0 where
  pub request : Request
  pub timestamp : Bytes

abbrev pub no_secret : Exn
no_secret = record { cls = known validation_error; payload = 0 }

-- `BearerAuth`, from the token to the header of a request.
unfoldable pub bearer_auth : String → Outcome (List (String × String))
bearer_auth token =
    if is_empty token
    then raised no_secret
    else returned (("Authorization", str_append "Bearer " token) ∷ [])

-- The check of `BasicAuth`.
unfoldable pub basic_auth : String → String → Outcome (String × String)
basic_auth username password =
    if is_empty username || is_empty password
    then raised no_secret
    else returned (username, password)

-- `b"\n".join([...])` of `HMACAuth.auth_flow`
unfoldable pub canonical : Signed → Bytes
canonical r =
    r.request.method ++ 10 ∷ (r.request.raw_path ++ 10 ∷ (r.timestamp ++ 10 ∷ r.request.content))

pub record Codecs : Type 0 where
  pub hmac_sha256 : Bytes → Bytes → Bytes
  pub b64encode : Bytes → String
  pub digits : ℕ → Bytes
  pub text_of : Bytes → String
  pub second : ℕ

abbrev pub key_id_header : Option String → List (String × String)
key_id_header none = []
key_id_header (some key_id) = ("X-Signature-Key-Id", key_id) ∷ []

-- `HMACAuth`: of a secret, a request at a reading of the clock.
unfoldable pub hmac_auth :
    Codecs → Bytes → Option String → Outcome (Request → ℕ → List (String × String))
unfolding canonical
hmac_auth x [] key_id = raised no_secret
hmac_auth x (b ∷ secret) key_id = returned (λ request now.
    let timestamp = x.digits (now / x.second) in
    let digest =
      x.hmac_sha256 (b ∷ secret)
        (canonical (record { request = request; timestamp = timestamp })) in
    ("X-Signature", x.b64encode digest)
    ∷ ("X-Signature-Timestamp", x.text_of timestamp)
    ∷ key_id_header key_id)
