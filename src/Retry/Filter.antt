-- ===== src/Retry/Filter.antt =====
-- What `_filter_retry_on` leaves, given that the loop re-raises the breaker's error beforehand.
use resilience_kit.Prelude.{◌≡◌, refl, true, false, List, [], ◌∷◌, arith}
use resilience_kit.Exceptions.{Cls, known, user, Exn, issubclass, isinstance, catches}
use resilience_kit.Retry.Loop.{unavailable, filter_retry_on}

-- A class below one of the breaker's own is one of the breaker's own.
issubclass-unavailable :
    (e c : Cls)
    → issubclass e c ≡ true
    → issubclass c unavailable ≡ true
    → issubclass e unavailable ≡ true
unfolding issubclass
issubclass-unavailable (known k) (known j) p q = ground arith
issubclass-unavailable (known k) (user m d) p q = cc
issubclass-unavailable (user n e) (known j) p q = issubclass-unavailable e (known j) p q
issubclass-unavailable (user n e) (user m d) p q =
    ground (arith, issubclass-unavailable e (user m d))

-- The filter drops no class that could have caught the exception.
pub catches-filter_retry_on :
    (cs : List Cls) (e : Exn)
    → isinstance e unavailable ≡ false
    → catches (filter_retry_on cs) e ≡ catches cs e
unfolding filter_retry_on
catches-filter_retry_on [] e h = refl
catches-filter_retry_on (c ∷ cs) e h =
    ground (arith, issubclass-unavailable e.cls c, catches-filter_retry_on cs e h)
