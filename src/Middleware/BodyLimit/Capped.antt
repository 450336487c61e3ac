-- ===== src/Middleware/BodyLimit/Capped.antt =====
-- What an application behind the limit can receive.
use resilience_kit.Prelude.{
  ℕ, zero, suc, ◌+◌, ◌≤◌, ◌<◌, false, List, [], ◌∷◌, length, ltb, Bool-cases, ◌≡◌, refl, ap, ◌∙◌,
  inl, inr, arith,
}
use resilience_kit.Middleware.BodyLimit.{
  Message, bytes, no_bytes, http_request, http_disconnect, other_message, body_length, capped,
  capped_receive,
}

-- The messages that so many calls return, one after another.
unfoldable pub receive_times : {X : Type 0} → (X → X × Message) → ℕ → X → List Message
receive_times receive zero s = []
receive_times receive (suc n) s = (receive s).1 ∷ receive_times receive n (receive s).0

abbrev pub total : List Message → ℕ
total [] = 0
total (message ∷ messages) = body_length message + total messages

-- The messages that the handler makes of the server's.
unfoldable capped_all : ℕ → ℕ → List Message → List Message
unfolding capped
capped_all max_bytes seen [] = []
capped_all max_bytes seen (message ∷ messages) =
    (capped max_bytes seen message).1
    ∷ capped_all max_bytes (capped max_bytes seen message).0 messages

receive_times-capped_all :
    {S : Type 0} (max_bytes : ℕ) (receive : S → S × Message) (n seen : ℕ) (s : S)
    → receive_times (capped_receive max_bytes receive) n (seen, s)
      ≡ capped_all max_bytes seen (receive_times receive n s)
unfolding receive_times capped_all capped_receive
receive_times-capped_all max_bytes receive zero seen s = refl
receive_times-capped_all max_bytes receive (suc n) seen s =
    ap (λ rest. (capped max_bytes seen (receive s).1).1 ∷ rest)
      (receive_times-capped_all max_bytes receive n (capped max_bytes seen (receive s).1).0
        (receive s).0)

-- Once the count is above the maximum, no more bytes come.
total-capped_all_above :
    (max_bytes seen : ℕ) (messages : List Message)
    → max_bytes < seen
    → total (capped_all max_bytes seen messages) ≡ 0
unfolding capped_all
total-capped_all_above max_bytes seen [] h = refl
total-capped_all_above max_bytes seen (http_request (bytes b) more ∷ messages) h =
    ground
      (arith, h, total-capped_all_above max_bytes (seen + length b) messages (omega (arith, h)))
total-capped_all_above max_bytes seen (http_request (no_bytes k) more ∷ messages) h =
    ground (arith, total-capped_all_above max_bytes seen messages h)
total-capped_all_above max_bytes seen (http_disconnect ∷ messages) h =
    ground (arith, total-capped_all_above max_bytes seen messages h)
total-capped_all_above max_bytes seen (other_message k ∷ messages) h =
    ground (arith, total-capped_all_above max_bytes seen messages h)

total-capped_all :
    (max_bytes seen : ℕ) (messages : List Message)
    → seen ≤ max_bytes
    → seen + total (capped_all max_bytes seen messages) ≤ max_bytes
unfolding capped_all
total-capped_all max_bytes seen [] h = omega (arith, h)
total-capped_all max_bytes seen (http_request (bytes b) more ∷ messages) h =
    elim (Bool-cases (ltb max_bytes (seen + length b))) [
      | inl k ↦ ground (
        arith,
        h,
        k,
        total-capped_all_above max_bytes (seen + length b) messages (ground (arith, k)),
      )
      | inr k ↦
          ground
            (arith, h, k, total-capped_all max_bytes (seen + length b) messages (ground (arith, k)))
    ]
total-capped_all max_bytes seen (http_request (no_bytes k) more ∷ messages) h =
    ground (arith, total-capped_all max_bytes seen messages h)
total-capped_all max_bytes seen (http_disconnect ∷ messages) h =
    ground (arith, total-capped_all max_bytes seen messages h)
total-capped_all max_bytes seen (other_message k ∷ messages) h =
    ground (arith, total-capped_all max_bytes seen messages h)

capped_all_small :
    (max_bytes seen : ℕ) (messages : List Message)
    → seen + total messages ≤ max_bytes
    → capped_all max_bytes seen messages ≡ messages
unfolding capped_all
capped_all_small max_bytes seen [] h = refl
capped_all_small max_bytes seen (http_request (bytes b) more ∷ messages) h =
    let small : ltb max_bytes (seen + length b) ≡ false = ground (arith, h) in
    ground (arith, small, capped_all_small max_bytes (seen + length b) messages (omega (arith, h)))
capped_all_small max_bytes seen (http_request (no_bytes k) more ∷ messages) h =
    ground (arith, capped_all_small max_bytes seen messages (omega (arith, h)))
capped_all_small max_bytes seen (http_disconnect ∷ messages) h =
    ground (arith, capped_all_small max_bytes seen messages (omega (arith, h)))
capped_all_small max_bytes seen (other_message k ∷ messages) h =
    ground (arith, capped_all_small max_bytes seen messages (omega (arith, h)))

-- However often an application calls the capped receiver, and whatever the server sends, the bodies
-- that it gets are no longer than the maximum in all.
pub capped_receive_within_max :
    {S : Type 0} (max_bytes : ℕ) (receive : S → S × Message) (n : ℕ) (s : S)
    → total (receive_times (capped_receive max_bytes receive) n (0, s)) ≤ max_bytes
capped_receive_within_max max_bytes receive n s =
    rw (receive_times-capped_all max_bytes receive n 0 s)
      (omega (arith, total-capped_all max_bytes 0 (receive_times receive n s) (omega arith)))

-- As long as the bodies that the server sends are no longer than the maximum in all, the capped
-- receiver returns the server's messages as they are.
capped_receive_unchanged :
    {S : Type 0} (max_bytes : ℕ) (receive : S → S × Message) (n : ℕ) (s : S)
    → total (receive_times receive n s) ≤ max_bytes
    → receive_times (capped_receive max_bytes receive) n (0, s) ≡ receive_times receive n s
capped_receive_unchanged max_bytes receive n s h =
    receive_times-capped_all max_bytes receive n 0 s
    ∙ capped_all_small max_bytes 0 (receive_times receive n s) (omega (arith, h))
