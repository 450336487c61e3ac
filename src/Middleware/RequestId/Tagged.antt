-- ===== src/Middleware/RequestId/Tagged.antt =====
-- What every response carries.
use resilience_kit.Prelude.{
  String, true, List, [], ◌∷◌, ◌++◌, map, Option, some, str_eq, eq_refl, ◌≡◌, refl, inl, inr, arith,
}
use resilience_kit.Exceptions.{Exn}
use resilience_kit.Context.{Context, bind}
use resilience_kit.Middleware.Asgi.{Scope, Frame, response_start, response_body, IsHeader}
use resilience_kit.Middleware.Errors.{App}
use resilience_kit.Middleware.RequestId.{with_headers, ids_of, request_id}

-- Each start of a response has a header of this name and value.
abbrev pub IsCarried : String → String → List Frame → Type 0
IsCarried name value [] = Unit
IsCarried name value (response_start status headers ∷ frames) =
    IsHeader name value headers × IsCarried name value frames
IsCarried name value (response_body body ∷ frames) = IsCarried name value frames

IsHeader-right :
    (name value : String) (xs ys : List (String × String))
    → IsHeader name value ys
    → IsHeader name value (xs ++ ys)
IsHeader-right name value [] ys h = h
IsHeader-right name value (x ∷ xs) ys h = inr (IsHeader-right name value xs ys h)

with_headers-IsCarried :
    (name value : String) (extra : List (String × String)) (frames : List Frame)
    → IsHeader name value extra
    → IsCarried name value (map (with_headers extra) frames)
with_headers-IsCarried name value extra [] h = tt
with_headers-IsCarried name value extra (response_start status headers ∷ frames) h =
    (IsHeader-right name value headers extra h, with_headers-IsCarried name value extra frames h)
with_headers-IsCarried name value extra (response_body body ∷ frames) h =
    with_headers-IsCarried name value extra frames h

module _ {S : Type 0} (lower : String → String) (header correlation_header : String)
    (new_request_id : S → S × String) where
  -- An application runs with the two ids bound, whether it then raises or not; every response that it
  -- starts carries both, and the variables are afterwards as they were before.
  pub request_id-IsCarried :
      (app : App (Context × S)) (scope : Scope) (before after : Context) (s s₁ s₂ : S)
      (rid cid : String) (frames : List Frame) (out : Option Exn)
      → str_eq scope.type_of "http" ≡ true
      → ids_of lower header correlation_header new_request_id scope s ≡ (s₁, rid, cid)
      → app scope (record { request_id = some rid; correlation_id = some cid }, s₁)
        ≡ ((after, s₂), frames, out)
      → (sent : List Frame) × (request_id lower header correlation_header new_request_id app scope
            (before, s)
          ≡ ((before, s₂), sent, out))
        × IsCarried (lower header) rid sent
        × IsCarried (lower correlation_header) cid sent
  unfolding request_id bind
  request_id-IsCarried app scope before after s s₁ s₂ rid cid frames out http ids ends =
      let extra = (lower header, rid) ∷ (lower correlation_header, cid) ∷ [] in
      (
        map (with_headers extra) frames,
        ground (arith, http, ids, ends),
        with_headers-IsCarried (lower header) rid extra frames (inl (eq_refl (lower header), refl)),
        with_headers-IsCarried (lower correlation_header) cid extra frames
            (inr (inl (eq_refl (lower correlation_header), refl))),
      )
