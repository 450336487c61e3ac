-- ===== src/Middleware/SelectiveCors/Samples.antt =====
-- A site with one allowed origin, and the theorem at it.
use resilience_kit.Prelude.{ℕ, String, List, [], ◌∷◌, some, true, ◌≡◌, refl, inl, inr}
use resilience_kit.Middleware.Asgi.{Scope, Frame, response_start, response_body, IsSent}
use resilience_kit.Middleware.SelectiveCors.{
  Cors, allow_origin_header, new, header, matches, is_origin_allowed, call,
}
use resilience_kit.Middleware.SelectiveCors.Origins.{call-IsSent}

abbrev as_is : String → String
as_is s = s

abbrev cors : Cors
cors = new as_is ("https://shop.test" ∷ []) ("/api/" ∷ []) "GET" "Content-Type" "600"

abbrev from : String → String → Scope
from origin path = record {
  type_of = "http";
  method = some "GET";
  path = path;
  headers = ("host", "api.test") ∷ ("origin", origin) ∷ [];
}

abbrev app : Scope → ℕ → ℕ × List Frame
app scope n = (n, response_start 200 (("x-n", "1") ∷ []) ∷ response_body "ok" ∷ [])

other_origin :
    (call as_is cors app (from "https://evil.test" "/api/x") 0).1
    ≡ response_start 200 (("x-n", "1") ∷ []) ∷ response_body "ok" ∷ []
unfolding call new
other_origin = refl

app_silent :
    (value : String) (n : ℕ)
    → ¬ IsSent allow_origin_header value (app (from "https://shop.test" "/api/x") n).1
app_silent value n (inl (inl k)) = cc
app_silent value n (inl (inr x)) = elim x [ ]
app_silent value n (inr x) = elim x [ ]

answer-IsSent :
    IsSent allow_origin_header "https://shop.test"
      (call as_is cors app (from "https://shop.test" "/api/x") 0).1
unfolding call new
answer-IsSent = inl (inr (inl (refl, refl)))

call-IsSent_example :
    (matches as_is cors "/api/x" ≡ true)
    × (header as_is (("host", "api.test") ∷ ("origin", "https://shop.test") ∷ []) "origin"
        ≡ some "https://shop.test")
    × (is_origin_allowed as_is cors (some "https://shop.test") ≡ true)
call-IsSent_example =
    call-IsSent as_is cors app (from "https://shop.test" "/api/x") 0 "https://shop.test"
      (app_silent "https://shop.test") answer-IsSent
