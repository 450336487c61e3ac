-- ===== src/Exceptions/Samples.antt =====
-- Tests of the class order and of the status table.
use resilience_kit.Prelude.{◌≡◌, refl}
use resilience_kit.Exceptions.{
  known, user, http_status_for, external_timeout_error, transient_error,
}

timeout_subclass :
    http_status_for (record { cls = user 3 (known external_timeout_error); payload = 0 }) ≡ 504
unfolding http_status_for
timeout_subclass = refl

bare_transient : http_status_for (record { cls = known transient_error; payload = 0 }) ≡ 500
unfolding http_status_for
bare_transient = refl
