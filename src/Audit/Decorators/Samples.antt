-- ===== src/Audit/Decorators/Samples.antt =====
-- A handler whose dispatcher has no room, and the theorem at it.
use resilience_kit.Prelude.{
  ℕ, ◌+◌, List, [], ◌∷◌, Option, subst, sym, ap, none, some, ◌≡◌, refl, arith,
}
use resilience_kit.Exceptions.{Outcome, raised, known, runtime_error, value_error, issubclass}
use resilience_kit.Audit.Sanitizers.{Fields}
use resilience_kit.Audit.Backends.{Verdict, failure, inbound}
use resilience_kit.Audit.Decorators.{Capture, wrap_async}
use resilience_kit.Audit.Decorators.Captured.{captured, IsQuiet, wrap_async-captured}

record Service : Type 0 where
  handled : ℕ
  verdicts : List Verdict

abbrev broken : Service → Service × Outcome Fields
broken s = (s, raised (record { cls = known value_error; payload = 1 }))

abbrev or_broken : Option (Service → Service × Outcome Fields) → Service → Service × Outcome Fields
or_broken none = broken
or_broken (some factory) = factory

abbrev capture : Capture Service
capture = record {
  direction = inbound;
  service = "orders";
  method = "POST";
  path = "/orders";
  payload_factory = some broken;
  request_id = λ s. none;
  correlation_id = λ s. none;
  error_code = λ e. none;
  submit = λ event s. (
    record s { verdicts = event.outcome ∷ s.verdicts },
    some (record { cls = known runtime_error; payload = 2 }),
  );
}

abbrev verdicts_of : Service → List Verdict
verdicts_of s = s.verdicts

abbrev handler : Service → Service × Outcome ℕ
handler s = (
  record s { handled = s.handled + 1 },
  raised (record { cls = known runtime_error; payload = 3 }),
)

abbrev start : Service
start = record { handled = 0; verdicts = [] }

handler-wrap_async : wrap_async capture handler start ≡ (
  record { handled = 1; verdicts = failure ∷ [] },
  raised (record { cls = known runtime_error; payload = 3 }),
)
unfolding wrap_async issubclass
handler-wrap_async = refl

capture-IsQuiet : IsQuiet capture verdicts_of
unfolding issubclass
capture-IsQuiet = record {
  factory_quiet = λ factory s e k h.
      let h' = subst (λ f. (f s).1 ≡ raised e) (sym (ap or_broken k)) h in ground (arith, h');
  factory_log =
      λ factory s k. subst (λ f. verdicts_of (f s).0 ≡ verdicts_of s) (ap or_broken k) refl;
  submit_quiet = λ event s e h. ground (arith, h);
  submit_log = λ event s. refl;
}

wrap_async-captured_example :
    let (s', out) = handler start in
    ((wrap_async capture handler start).1 ≡ out)
    × (verdicts_of (wrap_async capture handler start).0 ≡ captured out (verdicts_of s'))
wrap_async-captured_example = wrap_async-captured capture verdicts_of capture-IsQuiet handler start
