-- ===== src/HttpClient/Client/Samples.antt =====
-- A client behind a resolver that later answers with a private address, and the theorems at it.
use resilience_kit.Prelude.{
  subst, ℕ, ◌+◌, String, ◌≡◌, refl, fun_ext, true, false, [], ◌∷◌, none, some, str_eq, ◌==◌,
  if◌then◌else◌, arith, max, eq_iff,
}
use resilience_kit.Exceptions.{returned}
use resilience_kit.Retry.Backoff.{Jitter}
use resilience_kit.Retry.Loop.{World}
use resilience_kit.CircuitBreaker.{default_config}
use resilience_kit.CircuitBreaker.Memory
use resilience_kit.Ssrf.{
  Address, Url, Net, SsrfSettings, host_or_empty, classify_non_public, reason_of,
}
use resilience_kit.Ssrf.Public.{IsPublic}
use resilience_kit.Registry.{Defaults, Process, new_registry}
use resilience_kit.HttpClient.{Response, Wire}
use resilience_kit.HttpClient.Client.{
  Platform, ApiClient, RequestArgs, request, raw_send, client_request,
}
use resilience_kit.HttpClient.Client.Plain.{is_plain}
use resilience_kit.HttpClient.Client.Guarded.{ReadsUrls, AgreeOn, request_guarded}
use resilience_kit.HttpClient.Client.Audited.{audited, outcome_of, raw_send-audited}

-- How often the resolver was asked, and how many records the sink has.
record Env : Type 0 where
  lookups : ℕ
  records : ℕ

abbrev State : Type 0
State = Process Env

abbrev touch : (Env → Env) → State → State
touch f p = record p { env = f p.env }

abbrev address : String → Address
address s = record {
  text = s;
  is_loopback = false;
  is_link_local = false;
  is_multicast = false;
  is_unspecified = false;
  is_private = str_eq s "10.0.0.1";
  is_reserved = false;
}

abbrev host_url : Url
host_url = record { scheme = "http"; hostname = some "api.test" }

abbrev net : Net State
net = record {
  urlparse = λ url. some host_url;
  ip_address = λ s.
      if str_eq s "8.8.8.8"
      then some (address s)
      else if str_eq s "10.0.0.1"
      then some (address s)
      else none;
  getaddrinfo = λ host p. (
    touch (λ e. record e { lookups = e.lookups + 1 }) p,
    some ((if p.env.lookups == 0 then "8.8.8.8" else "10.0.0.1") ∷ []),
  );
  lower = λ s. s;
}

abbrev platform : Platform State
platform = record {
  net = net;
  upper = λ s. s;
  build = λ args. record {
    method = args.method;
    url_host = "api.test";
    host_header = none;
    sni_hostname = none;
    headers = args.headers;
    content = args.content;
  };
  new_key = λ p. (p, "key");
  tracing_installed = false;
  inject = λ h. h;
  sink = λ call p. (touch (λ e. record e { records = e.records + 1 }) p, none);
}

abbrev api : ApiClient State
api = record { service = "partner"; client = none; check_ssrf = true }

abbrev settings : SsrfSettings
settings = record { block_private_ips = true; outbound_allowlist = "*" ∷ [] }

abbrev careless : Wire State
careless r p = (p, returned (record { status_code = 200; body = 1 }))

-- It answers otherwise for any address but the public one.
abbrev careful : Wire State
careful r p = (
  p,
  returned (record { status_code = if str_eq r.url_host "8.8.8.8" then 200 else 599; body = 1 }),
)

networks_agree : AgreeOn (IsPublic net) careless careful
unfolding classify_non_public reason_of
networks_agree r public = fun_ext (λ p. ground (arith, public, eq_iff r.url_host "10.0.0.1"))

platform-ReadsUrls : ReadsUrls platform
platform-ReadsUrls = record {
  lower_empty = λ s. refl;
  lower_idem = λ s. refl;
  build_host = λ args url h plain. ground (arith, h);
}

abbrev clock : Env → ℕ
clock e = 0

abbrev defaults : Defaults
defaults = record {
  max_attempts = 3;
  wait_min = 1;
  wait_max = 10;
  exponential_base = record { num = 2; den = 1 };
  jitter = Jitter.none;
  fail_max = 5;
  reset_timeout = 30;
  success_threshold = 2;
}

abbrev loop : World State Response
loop = record {
  func = λ p. (p, returned (record { status_code = 0; body = 0 }));
  on_error = none;
  sleep = λ t p. (p, none);
  uniform = λ p lo hi. max lo hi;
  drawn = λ p. p;
  incr = λ m p. p;
}

abbrev start : State
start = record {
  registry = new_registry;
  heap = λ j. Memory.new (default_config 1);
  next = 0;
  env = record { lookups = 0; records = 0 };
}

abbrev post : RequestArgs
post = record {
  send = record { method = "POST"; url = "http://api.test/x"; headers = none; content = 5 };
  idempotency_key = none;
  auto_idempotency_key = true;
}

host_plain :
    (url : Url) → net.urlparse post.send.url ≡ some url → is_plain (host_or_empty url) ≡ true
unfolding is_plain
host_plain url h =
    let host : "api.test" ≡ host_or_empty url = ground (arith, h) in
    subst (λ s. is_plain s ≡ true) host refl

request_guarded_example :
    request platform clock defaults loop api settings none careless post start
    ≡ request platform clock defaults loop api settings none careful post start
request_guarded_example =
    request_guarded platform clock defaults loop api settings none careless careful post start
      platform-ReadsUrls refl refl refl host_plain (λ host q. ground arith) networks_agree

raw_send-audited_example :
    let (t', r) = client_request platform api.client none careful post.send start in
    raw_send platform api none careful post.send start
    ≡ ((platform.sink (audited platform post.send r) t').0, outcome_of platform r)
raw_send-audited_example =
    raw_send-audited platform api none careful post.send start (λ call u e h. ground (arith, h))
