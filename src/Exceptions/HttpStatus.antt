-- ===== src/Exceptions/HttpStatus.antt =====
-- http_status.py: what the table promises of every kit exception.
use resilience_kit.Prelude.{ℕ, ◌≡◌, refl, true, some, arith, get_elem?, All, All-get_elem?}
use resilience_kit.Exceptions.{Cls, known, user, Exn, isinstance, http_status_map, http_status_for}

-- The status of a class that an application derives is that of the class it derives from.
http_status_for-user :
    (n : ℕ) (c : Cls) (p q : ℕ)
    → http_status_for (record { cls = user n c; payload = p })
      ≡ http_status_for (record { cls = c; payload = q })
unfolding http_status_for
http_status_for-user n c p q = refl

abbrev Agrees : Exn → Cls × ℕ → Type 0
Agrees e entry = isinstance e entry.0 ≡ true → http_status_for e ≡ entry.1

Agrees-map : (c : Cls) (p : ℕ) → All (Agrees (record { cls = c; payload = p })) http_status_map
unfolding http_status_for
Agrees-map (known k) p = ground arith
Agrees-map (user n c) p = Agrees-map c p

-- Each line of the table decides: an instance of the class of line i, however far derived from it,
-- gets the status of line i, so that no line hides one below it.
http_status_for-table :
    (e : Exn) (i : ℕ) (c : Cls) (status : ℕ)
    → get_elem? http_status_map i ≡ some (c, status)
    → isinstance e c ≡ true
    → http_status_for e ≡ status
http_status_for-table e i c status at_i h =
    All-get_elem? (Agrees e) http_status_map i (c, status) at_i (Agrees-map e.cls e.payload) h
