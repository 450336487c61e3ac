-- ===== src/HttpClient/Client/Guarded.antt =====
-- Where the client's requests go.
use resilience_kit.Prelude.{
  ℕ, String, true, false, ◌≡◌, ◌≢◌, refl, ap, fun_ext, ◌∙◌, List, [], ◌∷◌, none, some, All,
  is_empty, inl, inr, Bool-cases, arith, eq_refl,
}
use resilience_kit.Prelude.Dict
use resilience_kit.Exceptions.{Outcome-cases, returned}
use resilience_kit.Retry.Loop.{World}
use resilience_kit.Ssrf.{Url, SsrfSettings, host_or_empty, resolve_and_validate}
use resilience_kit.Ssrf.Public.{
  IsPublic, resolve_and_validate-IsPublic, resolve_and_validate_pins, resolve_and_validate_host,
}
use resilience_kit.Registry.{Defaults, Process}
use resilience_kit.HttpClient.{Request, Response, Wire}
use resilience_kit.HttpClient.Idempotency.{resolve_idempotency_header}
use resilience_kit.Decorators.{resilient}
use resilience_kit.HttpClient.Client.Plain.{is_plain}
use resilience_kit.HttpClient.DnsPin.{
  Pins, pinned_onto, is_less, least, pick_pinned_ip, rewritten, handle_async_request,
}
use resilience_kit.HttpClient.Client.{
  SendArgs, Platform, ApiClient, lower, call_args, finish, client_request, raw_send, pins_for,
  maybe_inject_trace_context, RequestArgs, send, request_pinned, validated, request,
}

-- The least of some texts is one of them.
least-All :
    (P : String → Type 0) (ip : String) (ips : List String) → P ip → All P ips → P (least ip ips)
unfolding least
least-All P ip [] h hs = h
least-All P ip (other ∷ ips) h hs = elim (Bool-cases (is_less other ip)) [
  | inl lt ↦ rw lt (least-All P other ips hs.0 hs.1)
  | inr ge ↦ rw ge (least-All P ip ips h hs.1)
]

-- Two networks that do the same with every request that goes to an address that `P` holds of.
abbrev pub AgreeOn : {T : Type 0} → (String → Type 0) → Wire T → Wire T → Type 0
AgreeOn P wire wire' = (r : Request) → P r.url_host → wire r ≡ wire' r

-- The transport finds the pin that `request` sets, under whatever spelling the request has the host.
picks_pin :
    (lower : String → String) (hostname host ip : String) (ips : List String)
    → lower (lower hostname) ≡ lower hostname
    → lower host ≡ lower hostname
    → pick_pinned_ip lower (some (pinned_onto [] lower ((lower hostname, ip ∷ ips) ∷ []))) host
      ≡ some (least ip ips)
unfolding pick_pinned_ip pinned_onto Dict.put Dict.get
picks_pin lower hostname host ip ips idem same =
    ground (arith, idem, same, eq_refl (lower hostname))

module _ {T : Type 0} (platform : Platform T) where
  -- `str.lower` is idempotent, and httpx builds a request for the host that `urlparse` reads, if that
  -- is plain: of an internationalised name, `httpx.URL.host` is the decoded text.
  pub record ReadsUrls : Type 0 where
    pub lower_empty : (s : String) → is_empty (lower platform s) ≡ is_empty s
    pub lower_idem : (s : String) → lower platform (lower platform s) ≡ lower platform s
    pub build_host :
        (args : SendArgs) (url : Url)
        → platform.net.urlparse args.url ≡ some url
        → is_plain (lower platform (host_or_empty url)) ≡ true
        → lower platform (platform.build args).url_host ≡ lower platform (host_or_empty url)

  raw_send-AgreeOn :
      (P : String → Type 0) (api : ApiClient T) (ambient : Pins) (wire wire' : Wire T)
      (args : SendArgs) (url : Url) (ip : String) (ips : List String)
      → ReadsUrls
      → api.client ≡ none
      → platform.net.urlparse args.url ≡ some url
      → is_empty (lower platform (host_or_empty url)) ≡ false
      → is_plain (lower platform (host_or_empty url)) ≡ true
      → All P (ip ∷ ips)
      → AgreeOn P wire wire'
      → let pins = pins_for platform ambient (lower platform (host_or_empty url)) (ip ∷ ips) in
        raw_send platform api pins wire args ≡ raw_send platform api pins wire' args
  unfolding raw_send client_request handle_async_request
  raw_send-AgreeOn P api ambient wire wire' args url ip ips reads own parsed full plain public
        agree =
      let host = host_or_empty url in
      let request = platform.build (call_args platform args) in
      let pins = pins_for platform ambient (lower platform host) (ip ∷ ips) in
      let picked =
        picks_pin (lower platform) host request.url_host ip ips (reads.lower_idem host)
          (reads.build_host (call_args platform args) url parsed plain) in
      let same = agree (rewritten (least ip ips) request) (least-All P ip ips public.0 public.1) in
      let client_same : (t : T)
          → client_request platform api.client pins wire (call_args platform args) t
            ≡ client_request platform api.client pins wire' (call_args platform args) t =
        λ t. ground (arith, own, full, picked, ap (λ f. f t) same) in
      ap (λ f t. finish platform args (f t)) (fun_ext client_same)

module _ {S : Type 0} (platform : Platform (Process S)) (time : S → ℕ) (d : Defaults)
    (w : World (Process S) Response) where
  -- The arguments of `_send`, once the headers are there.
  abbrev with_headers : RequestArgs → Process S → SendArgs
  with_headers args p = record args.send {
    headers = maybe_inject_trace_context platform (
        resolve_idempotency_header (lower platform) platform.upper args.send.method
          args.send.headers args.idempotency_key args.auto_idempotency_key (platform.new_key p).1);
  }

  request_pinned-AgreeOn :
      (P : String → Type 0) (api : ApiClient (Process S)) (ambient : Pins)
      (wire wire' : Wire (Process S)) (args : RequestArgs) (url : Url) (ip : String)
      (ips : List String) (p : Process S)
      → ReadsUrls platform
      → api.client ≡ none
      → platform.net.urlparse args.send.url ≡ some url
      → is_empty (lower platform (host_or_empty url)) ≡ false
      → is_plain (lower platform (host_or_empty url)) ≡ true
      → All P (ip ∷ ips)
      → AgreeOn P wire wire'
      → request_pinned platform time d w api ambient wire (ip ∷ ips) args p
        ≡ request_pinned platform time d w api ambient wire' (ip ∷ ips) args p
  unfolding request_pinned send
  request_pinned-AgreeOn P api ambient wire wire' args url ip ips p reads own parsed full plain
        public agree =
      let p' = (platform.new_key p).0 in
      let same =
        raw_send-AgreeOn platform P api ambient wire wire' (with_headers args p) url ip ips reads
          own parsed full plain public agree in
      let sent = ap (λ f. resilient time d api.service (record w { func = f }) p') same in
      ground (arith, parsed, sent)

  -- The part after the checks, at the addresses that they returned.
  after_checks-AgreeOn :
      (api : ApiClient (Process S)) (settings : SsrfSettings) (ambient : Pins)
      (wire wire' : Wire (Process S)) (args : RequestArgs) (p q : Process S) (addrs : List String)
      → ReadsUrls platform
      → api.client ≡ none
      → settings.block_private_ips ≡ true
      → ((url : Url)
          → platform.net.urlparse args.send.url ≡ some url
          → is_plain (lower platform (host_or_empty url)) ≡ true)
      → ((host : String) (t : Process S) → (platform.net.getaddrinfo host t).1 ≢ some [])
      → AgreeOn (IsPublic platform.net) wire wire'
      → (resolve_and_validate platform.net settings args.send.url true p).1 ≡ returned addrs
      → request_pinned platform time d w api ambient wire addrs args q
        ≡ request_pinned platform time d w api ambient wire' addrs args q
  after_checks-AgreeOn api settings ambient wire wire' args p q [] reads own on plain answers agree
        h =
      absurd (resolve_and_validate_pins platform.net settings args.send.url p [] on answers h refl)
  after_checks-AgreeOn api settings ambient wire wire' args p q (ip ∷ ips) reads own on plain
        answers agree h =
      let url = args.send.url in
      let (parsed, k, full) =
        resolve_and_validate_host platform.net settings url true p (ip ∷ ips) on h in
      request_pinned-AgreeOn (IsPublic platform.net) api ambient wire wire' args parsed ip ips q
        reads own k (reads.lower_empty (host_or_empty parsed) ∙ full) (plain parsed k)
        (resolve_and_validate-IsPublic platform.net settings url true p (ip ∷ ips) on h) agree

  -- Over its own pinned client and with its checks on, a request to a URL with a plain host does not
  -- depend on what the network does with any request to an address that was not found public: none is
  -- sent, in no attempt, whatever the resolver answers the next time. A host is plain if it is in
  -- ASCII letters, digits and the signs - . : and _, and does not start with xn--; the resolver
  -- never succeeds with no address.
  pub request_guarded :
      (api : ApiClient (Process S)) (settings : SsrfSettings) (ambient : Pins)
      (wire wire' : Wire (Process S)) (args : RequestArgs) (p : Process S)
      → ReadsUrls platform
      → api.client ≡ none
      → api.check_ssrf ≡ true
      → settings.block_private_ips ≡ true
      → ((url : Url)
          → platform.net.urlparse args.send.url ≡ some url
          → is_plain (lower platform (host_or_empty url)) ≡ true)
      → ((host : String) (q : Process S) → (platform.net.getaddrinfo host q).1 ≢ some [])
      → AgreeOn (IsPublic platform.net) wire wire'
      → request platform time d w api settings ambient wire args p
        ≡ request platform time d w api settings ambient wire' args p
  unfolding request validated request_pinned send
  request_guarded api settings ambient wire wire' args p reads own check on plain answers agree =
      let (q, r) = validated platform time d w api settings args.send.url p in
      elim (Outcome-cases r) [
        | inr (e, k) ↦ ground (arith, k)
        | inl (addrs, k) ↦
            let same =
              after_checks-AgreeOn api settings ambient wire wire' args p q addrs reads own on plain
                answers agree (ground (arith, check, k)) in
            ground (arith, k, same)
      ]
