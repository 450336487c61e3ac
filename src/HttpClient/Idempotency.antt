-- ===== src/HttpClient/Idempotency.antt =====
-- http_client/client.py: `_resolve_idempotency_header`.
--
-- `str.lower` and `str.upper` are arguments, and so is the key that `uuid4` would make.
pub mod Header
mod Samples
use resilience_kit.Prelude.{
  String, Bool, true, false, ◌&&◌, ◌||◌, not, List, [], ◌∷◌, Option, none, some, is_some, str_eq,
  str_in, is_empty, if◌then◌else◌,
}
use resilience_kit.Prelude.Dict
use resilience_kit.Prelude.Dict.{Dict}

abbrev pub idempotency_header : String
idempotency_header = "Idempotency-Key"

abbrev pub or_none : Option (Dict String) → Dict String
or_none none = []
or_none (some headers) = headers

module _ (lower upper : String → String) where
  abbrev pub is_key_header : String → Bool
  is_key_header k = str_eq (lower k) (lower idempotency_header)

  -- `any(k.lower() == … for k in headers)`
  unfoldable pub has_key_header : Dict String → Bool
  has_key_header [] = false
  has_key_header ((k, v) ∷ headers) = is_key_header k || has_key_header headers

  unfoldable pub drop_key_headers : Dict String → Dict String
  drop_key_headers [] = []
  drop_key_headers ((k, v) ∷ headers) =
      let rest = drop_key_headers headers in if is_key_header k then rest else (k, v) ∷ rest

  -- `idempotency_key or uuid.uuid4().hex`
  abbrev pub key_or : Option String → String → String
  key_or none fresh = fresh
  key_or (some key) fresh = if is_empty key then fresh else key

  unfoldable pub resolve_idempotency_header :
      String → Option (Dict String) → Option String → Bool → String → Option (Dict String)
  unfolding has_key_header drop_key_headers
  resolve_idempotency_header method headers idempotency_key auto fresh =
      if not (is_some idempotency_key) && (has_key_header (or_none headers) || not auto)
      then headers
      else if not (is_some idempotency_key)
          && not (str_in (upper method) ("POST" ∷ "PUT" ∷ "PATCH" ∷ []))
      then headers
      else some (
          Dict.put (drop_key_headers (or_none headers)) idempotency_header
            (key_or idempotency_key fresh))
