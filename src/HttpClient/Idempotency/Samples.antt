-- ===== src/HttpClient/Idempotency/Samples.antt =====
-- An explicit key over headers that have one under another spelling.
use resilience_kit.Prelude.{String, true, ◌≡◌, refl, [], ◌∷◌, some, str_eq, if◌then◌else◌}
use resilience_kit.Prelude.Dict
use resilience_kit.Prelude.Dict.{Dict}
use resilience_kit.HttpClient.Idempotency.{or_none, resolve_idempotency_header}

-- `str.lower` on the texts below.
abbrev lower : String → String
lower s = if str_eq s "Idempotency-Key" then "idempotency-key" else s

abbrev as_is : String → String
as_is s = s

abbrev headers : Dict String
headers = ("idempotency-key", "old") ∷ ("accept", "json") ∷ []

abbrev sent : Dict String
sent =
    or_none (resolve_idempotency_header lower as_is "POST" (some headers) (some "k1") true "fresh")

sent_headers : sent ≡ ("accept", "json") ∷ ("Idempotency-Key", "k1") ∷ []
unfolding resolve_idempotency_header Dict.put
sent_headers = refl
