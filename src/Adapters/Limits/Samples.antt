-- ===== src/Adapters/Limits/Samples.antt =====
-- Two requests a minute of each address, and the theorems at that limit.
use resilience_kit.Prelude.{ℕ, ◌≤◌, String, List, [], ◌∷◌, some, ◌≡◌, refl, arith}
use resilience_kit.Prelude.Dict
use resilience_kit.Throttle.{Rate}
use resilience_kit.Throttle.Memory.{Windows, decide, check}
use resilience_kit.Throttle.Memory.Windows.{count_in}
use resilience_kit.Throttle.Contract.{in_memory}
use resilience_kit.Throttle.Scopes.{Attrs, ip, build_key}
use resilience_kit.Adapters.Limits.{default_attrs}
use resilience_kit.Adapters.Limits.Guarded.{handled, handled_within_rate}

abbrev two_a_minute : Rate
two_a_minute = record { count = 2; per_seconds = 60000 }

abbrev from : String → Attrs
from host = default_attrs (record { client_host = some host; url_path = "/search" })

abbrev requests : List (ℕ × Attrs)
requests = (1, from "a") ∷ (2, from "b") ∷ (3, from "a") ∷ (4, from "a") ∷ (60005, from "a") ∷ []

abbrev empty : Windows
empty = []

handled_of_a : handled 1000 ip two_a_minute "throttle:ip:a" empty requests ≡ 1 ∷ 3 ∷ 60005 ∷ []
unfolding handled in_memory check decide build_key Dict.get Dict.put
handled_of_a = refl

handled_within_rate_example :
    count_in 60000 1 (handled 1000 ip two_a_minute "throttle:ip:a" empty requests) ≤ 2
unfolding in_memory Dict.get
handled_within_rate_example =
    handled_within_rate 1000 ip two_a_minute "throttle:ip:a" empty requests 1 1 refl (omega arith)

abbrev full : Windows
full = ("throttle:ip:a", 1 ∷ 3 ∷ []) ∷ []
