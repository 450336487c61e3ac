-- ===== src/Throttle/Rates/Samples.antt =====
-- A rate of sixty a minute.
use resilience_kit.Prelude.{ℕ, String, Option, some, ◌≡◌, refl}
use resilience_kit.Prelude.Dict
use resilience_kit.Exceptions.{returned}
use resilience_kit.Throttle.Rates.{parse}

-- The match, the number and the lower case of "60/MIN".
abbrev groups : String → Option (String × String)
groups spec = some ("60", "MIN")

abbrev sixty : String → ℕ
sixty digits = 60

abbrev min : String → String
min unit = "min"

sixty_a_minute :
    parse groups sixty min 1000 "60/MIN" ≡ returned (record { count = 60; per_seconds = 60000 })
unfolding parse Dict.get
sixty_a_minute = refl
