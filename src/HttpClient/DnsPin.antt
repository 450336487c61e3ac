-- ===== src/HttpClient/DnsPin.antt =====
-- http_client/dns_pin.py.
--
-- The context variable `pinned_dns` is an argument. `sorted(ips)[0]` is the least of the texts.
use Prim.Native.String.{compare}
use Prim.Native.Nat.{Ordering}
use resilience_kit.Prelude.{
  String, Bool, true, false, List, [], ◌∷◌, Option, none, some, if◌then◌else◌,
}
use resilience_kit.Prelude.Dict
use resilience_kit.Prelude.Dict.{Dict}
use resilience_kit.Exceptions.{Outcome}
use resilience_kit.HttpClient.{Request, Response, Wire}

abbrev pub Pins : Type 0
Pins = Option (Dict (List String))

-- The loop of the dictionary that `pinned` sets, on what it holds so far.
unfoldable pub pinned_onto :
    Dict (List String) → (String → String) → Dict (List String) → Dict (List String)
pinned_onto made lower [] = made
pinned_onto made lower ((host, ips) ∷ others) =
    pinned_onto (Dict.put made (lower host) ips) lower others

abbrev pub pinned : (String → String) → Dict (List String) → Dict (List String)
pinned = pinned_onto []

abbrev pub is_less : String → String → Bool
is_less s t = elim (compare s t) [ Ordering.lt ↦ true | _ ↦ false ]

unfoldable pub least : String → List String → String
least ip [] = ip
least ip (other ∷ ips) = least (if is_less other ip then other else ip) ips

abbrev pub first_sorted : Option (List String) → Option String
first_sorted none = none
first_sorted (some []) = none
first_sorted (some (ip ∷ ips)) = some (least ip ips)

-- `_pick_pinned_ip`
unfoldable pub pick_pinned_ip : (String → String) → Pins → String → Option String
unfolding least
pick_pinned_ip lower none host = none
pick_pinned_ip lower (some pins) host = first_sorted (Dict.get pins (lower host))

abbrev pub or_set : Option String → String → Option String
or_set none s = some s
or_set (some t) s = some t

unfoldable pub rewritten : String → Request → Request
rewritten ip request = record request {
  host_header = or_set request.host_header request.url_host;
  sni_hostname = some request.url_host;
  url_host = ip;
}

-- `PinnedHTTPTransport.handle_async_request`
unfoldable pub handle_async_request :
    {T : Type 0} → (String → String) → Pins → Wire T → Request → T → T × Outcome Response
unfolding pick_pinned_ip rewritten
handle_async_request lower pins wire request = elim (pick_pinned_ip lower pins request.url_host) [
  | none ↦ wire request
  | some ip ↦ wire (rewritten ip request)
]
