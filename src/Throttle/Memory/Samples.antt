-- ===== src/Throttle/Memory/Samples.antt =====
-- Two events in ten ticks, and the theorems at that rate.
use resilience_kit.Prelude.{ℕ, ◌≤◌, ◌≡◌, ◌≢◌, refl, String, List, [], ◌∷◌, arith, eq_iff}
use resilience_kit.Prelude.Dict
use resilience_kit.Throttle.{Rate}
use resilience_kit.Throttle.Memory.{Windows, decide, admitted}
use resilience_kit.Throttle.Memory.Windows.{count_in}
use resilience_kit.Throttle.Memory.Limit.{admitted_within_rate}
use resilience_kit.Throttle.Memory.Exact.{sliding_log, admitted-eq-sliding_log}

abbrev two_in_ten : Rate
two_in_ten = record { count = 2; per_seconds = 10 }

abbrev times : List ℕ
times = 1 ∷ 4 ∷ 5 ∷ 11 ∷ 12 ∷ 13 ∷ 14 ∷ []

abbrev full : Windows
full = ("ip:a", 1 ∷ 4 ∷ []) ∷ ("ip:b", 3 ∷ []) ∷ []

-- The event at 1 still counts at 11, and no longer at 12.
admitted-two_in_ten : admitted 1 "ip:a" two_in_ten [] times ≡ 1 ∷ 4 ∷ 12 ∷ []
unfolding admitted decide Dict.get Dict.put
admitted-two_in_ten = refl

admitted_within_rate_example : count_in 10 2 (admitted 1 "ip:a" two_in_ten [] times) ≤ 2
unfolding Dict.get
admitted_within_rate_example =
    admitted_within_rate 1 "ip:a" two_in_ten [] times 2 1 refl (omega arith)

admitted-eq-sliding_log_example :
    admitted 1 "ip:a" two_in_ten [] times ≡ sliding_log two_in_ten [] times
unfolding Dict.get
admitted-eq-sliding_log_example =
    admitted-eq-sliding_log 1 "ip:a" two_in_ten [] times 1 refl (omega arith)

ip_a_not_ip_b : ◌≢◌ {A = String} "ip:a" "ip:b"
ip_a_not_ip_b = ground (arith, eq_iff "ip:a" "ip:b")
