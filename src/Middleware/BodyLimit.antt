-- ===== src/Middleware/BodyLimit.antt =====
-- middleware/body_limit.py: `BodyLimitMiddleware`.
--
-- The server's `receive` moves a state `S`, and the capped one the count of bytes seen too. Bytes are
-- numbers. `bytes.lower` of a header's name and `int` of its value are arguments.
pub mod Capped
mod Samples
use resilience_kit.Prelude.{
  ℕ, zero, suc, ◌+◌, String, Bool, true, false, List, [], ◌∷◌, Option, none, some, ltb, length,
  str_eq, if◌then◌else◌,
}
use resilience_kit.Prelude.Int.{ℤ, pos, negsuc}
use resilience_kit.Middleware.Asgi.{Scope, Frame, response_start, response_body}

-- `message["body"]`: bytes, or what an application put there instead.
pub data Body : Type 0 where
  bytes : List ℕ → Body
  no_bytes : ℕ → Body

pub data Message : Type 0 where
  http_request : Body → Bool → Message
  http_disconnect : Message
  other_message : ℕ → Message

module _ (lower : String → String) (int : String → Option ℤ) where
  -- `_content_length`
  unfoldable pub content_length : List (String × String) → Option ℤ
  content_length [] = none
  content_length ((raw_name, raw_value) ∷ headers) =
      let rest = content_length headers in
      if str_eq (lower raw_name) "content-length" then int raw_value else rest

-- `declared > max`
abbrev pub is_above : Option ℤ → ℕ → Bool
is_above none max_bytes = false
is_above (some (pos n)) max_bytes = ltb max_bytes n
is_above (some (negsuc n)) max_bytes = false

abbrev pub body_length : Message → ℕ
body_length (http_request (bytes b) more) = length b
body_length _ = 0

abbrev pub too_large : List Frame
too_large =
    response_start 413 (("content-type", "text/plain; charset=utf-8") ∷ [])
    ∷ response_body "Payload Too Large"
    ∷ []

-- What the handler makes of a message, from the maximum and what was seen before.
unfoldable pub capped : ℕ → ℕ → Message → ℕ × Message
capped max_bytes seen (http_request (bytes b) more) =
    let seen' = seen + length b in
    if ltb max_bytes seen' then (seen', http_disconnect) else (seen', http_request (bytes b) more)
capped max_bytes seen message = (seen, message)

module _ {S : Type 0} (max_bytes : ℕ) where
  unfoldable pub capped_receive : (S → S × Message) → ℕ × S → (ℕ × S) × Message
  unfolding capped
  capped_receive receive (seen, s) =
      let (s', message) = receive s in
      let (seen', answer) = capped max_bytes seen message in ((seen', s'), answer)

  -- `__call__`: the application over the receiver that it is given, or a refusal.
  unfoldable pub call :
      (String → String)
      → (String → Option ℤ)
      → Scope
      → (S → S × Message)
      → ((X : Type 0) → (X → X × Message) → X → X × List Frame)
      → S
      → S × List Frame
  unfolding content_length capped_receive
  call lower int scope receive app s =
      if str_eq scope.type_of "http"
      then if is_above (content_length lower int scope.headers) max_bytes
        then (s, too_large)
        else (let ((seen, s'), frames) = app (ℕ × S) (capped_receive receive) (0, s) in
            (s', frames))
      else app S receive s
