-- ===== src/Audit/Sanitizers/Samples.antt =====
-- A payload with secrets and a card number, and the theorems at them.
use resilience_kit.Prelude.{ℕ, String, List, [], ◌∷◌, ◌++◌, ◌≡◌, refl, true}
use resilience_kit.Audit.Sanitizers.{
  str, dict, Fields, end, field, Redactor, redacted, is_redacted_key, sanitize, luhn_ok,
}

abbrev as_is : String → String
as_is s = s

abbrev default_redactor : Redactor
default_redactor = record { fields = "password" ∷ "token" ∷ "secret" ∷ []; patterns = [] }

abbrev login : String → String → Fields
login password token = field "user" (str "ann") (
    field "session" (dict (field "auth_token" (str token) end))
      (field "password" (str password) end))

abbrev login_redacted : Fields
login_redacted = login redacted redacted

login_sanitized : sanitize as_is default_redactor (login "abc" "t1") ≡ login_redacted
unfolding sanitize is_redacted_key
login_sanitized = refl

abbrev card_start : List ℕ
card_start = 4 ∷ 1 ∷ 1 ∷ 1 ∷ 1 ∷ 1 ∷ 1 ∷ []

abbrev card_rest : List ℕ
card_rest = 1 ∷ 1 ∷ 1 ∷ 1 ∷ 1 ∷ 1 ∷ 1 ∷ 1 ∷ []

card-luhn_ok : luhn_ok (card_start ++ 1 ∷ card_rest) ≡ true
unfolding luhn_ok
card-luhn_ok = refl
