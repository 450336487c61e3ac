-- ===== src/Adapters/Django/Middleware/Identified.antt =====
-- The ids of a request.
use resilience_kit.Prelude.{String, false, some, ◌≡◌, arith}
use resilience_kit.Exceptions.{returned}
use resilience_kit.Context.{Context}
use resilience_kit.Adapters.Django.{
  HeaderMap, HttpRequest, HttpResponse, GetResponse, Settings, or_fresh,
}
use resilience_kit.Adapters.Django.Middleware.{given_or_new, request_ids}

module _ {H S : Type 0} (m : HeaderMap H) (c : Settings) where
  -- The variables as the view finds them, and the state.
  abbrev pub identified : (S → S × String) → HttpRequest H → S → Context × S
  identified new_request_id request s =
      let (s', rid) = given_or_new new_request_id (m.get request.headers c.req_header) s in
      (
        record {
          request_id = some rid;
          correlation_id = some (or_fresh (m.get request.headers c.corr_header) rid);
        },
        s',
      )

  -- A view that returns has run with both ids set; its response carries the same two, and the variables
  -- are afterwards as they were before.
  request_ids-tagged :
      (new_request_id : S → S × String) (view : GetResponse H S) (request : HttpRequest H)
      (before after : Context) (s s' : S) (response : HttpResponse H)
      → m.same c.corr_header c.req_header ≡ false
      → view request (identified new_request_id request s) ≡ ((after, s'), returned response)
      → (tagged : HttpResponse H) × (request_ids m c new_request_id view request (before, s)
          ≡ ((before, s'), returned tagged))
        × (m.get tagged.headers c.req_header ≡ (identified new_request_id request s).0.request_id)
        × (m.get tagged.headers c.corr_header
            ≡ (identified new_request_id request s).0.correlation_id)
  unfolding request_ids
  request_ids-tagged new_request_id view request before after s s' response differ ends =
      let rid = (given_or_new new_request_id (m.get request.headers c.req_header) s).1 in
      let cid = or_fresh (m.get request.headers c.corr_header) rid in
      let once = m.put response.headers c.req_header rid in
      (
        record response { headers = m.put once c.corr_header cid },
        ground (arith, ends),
        ground (
          arith,
          m.get_put once c.corr_header c.req_header cid,
          differ,
          m.get_put response.headers c.req_header c.req_header rid,
          m.same_self c.req_header,
        ),
        ground (arith, m.get_put once c.corr_header c.corr_header cid, m.same_self c.corr_header),
      )
