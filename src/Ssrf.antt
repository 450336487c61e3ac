-- ===== src/Ssrf.antt =====
-- ssrf/guard.py and ssrf/_ipchecks.py.
--
-- The standard library's `urlparse`, `ipaddress`, `getaddrinfo` and `str.lower` are the fields of a
-- `Net`; the resolver moves a state `S`, so that it may answer otherwise the next time. A set of
-- addresses is a list. Each `ValidationError` carries the number of its reason.
pub mod Public
pub mod AllowList
mod Samples
use text.Mathlib.Text.{starts_with}
use Prim.Native.String.{len, slice}
use resilience_kit.Prelude.{
  ℕ, String, Bool, true, false, ◌||◌, not, List, [], ◌∷◌, Option, none, some, str_eq, is_empty,
  ends_with, str_in, map, if◌then◌else◌,
}
use resilience_kit.Exceptions.{Exn, Outcome, returned, raised, known, validation_error, value_error}

-- What the guard reads of an address object.
pub record Address : Type 0 where
  pub text : String
  pub is_loopback : Bool
  pub is_link_local : Bool
  pub is_multicast : Bool
  pub is_unspecified : Bool
  pub is_private : Bool
  pub is_reserved : Bool

pub record Url : Type 0 where
  pub scheme : String
  pub hostname : Option String

pub record Net (S : Type 0) : Type 0 where
  -- `none` is a `ValueError`.
  pub urlparse : String → Option Url
  pub ip_address : String → Option Address
  -- `none` is a `gaierror`.
  pub getaddrinfo : String → S → S × Option (List String)
  pub lower : String → String

pub record SsrfSettings : Type 0 where
  pub block_private_ips : Bool
  pub outbound_allowlist : List String

pub data Reason : Type 0 where
  loopback link_local multicast unspecified private reserved : Reason

abbrev pub a_value_error : Exn
a_value_error = record { cls = known value_error; payload = 0 }

abbrev pub scheme_not_allowed : Exn
scheme_not_allowed = record { cls = known validation_error; payload = 1 }

abbrev pub no_hostname : Exn
no_hostname = record { cls = known validation_error; payload = 2 }

abbrev pub not_resolved : Exn
not_resolved = record { cls = known validation_error; payload = 3 }

abbrev pub non_public : Exn
non_public = record { cls = known validation_error; payload = 4 }

abbrev pub not_in_allowlist : Exn
not_in_allowlist = record { cls = known validation_error; payload = 5 }

-- The loop of `classify_non_public` over its table.
unfoldable pub reason_of : Address → Option Reason
reason_of ip =
    if ip.is_loopback
    then some loopback
    else if ip.is_link_local
    then some link_local
    else if ip.is_multicast
    then some multicast
    else if ip.is_unspecified
    then some unspecified
    else if ip.is_private
    then some private
    else if ip.is_reserved
    then some reserved
    else none

-- `parsed.hostname or ""`
abbrev pub host_or_empty : Url → String
host_or_empty url = elim url.hostname [ none ↦ "" | some host ↦ host ]

module _ {S : Type 0} (net : Net S) where
  unfoldable pub classify_non_public : String → Outcome (Option Reason)
  unfolding reason_of
  classify_non_public addr = elim (net.ip_address addr) [
    | none ↦ raised a_value_error
    | some ip ↦ returned (reason_of ip)
  ]

  -- The loop over the addresses: the exception that gets through, if any.
  unfoldable pub check_addrs : List String → Option Exn
  unfolding classify_non_public
  check_addrs [] = none
  check_addrs (addr ∷ addrs) =
      let rest = check_addrs addrs in
      elim (classify_non_public addr) [
        | raised e ↦ some e
        | returned reason ↦ elim reason [ none ↦ rest | some r ↦ some non_public ]
      ]

  -- `_resolve`
  unfoldable pub resolve : String → Bool → S → S × Outcome (List String)
  resolve host strict s = elim (net.ip_address host) [
    | some literal ↦ (s, returned (literal.text ∷ []))
    | none ↦
        let (s', answer) = net.getaddrinfo host s in
        (
          s',
          elim answer [
            | some addrs ↦ returned addrs
            | none ↦ if strict then raised not_resolved else returned []
          ],
        )
  ]

  -- `resolve_and_validate`, from the host on.
  unfoldable pub validate_host : String → Bool → S → S × Outcome (List String)
  unfolding resolve check_addrs
  validate_host host strict s =
      let (s', r) = resolve host strict s in
      elim r [
        | raised e ↦ (s', raised e)
        | returned addrs ↦
            (s', elim (check_addrs addrs) [ none ↦ returned addrs | some e ↦ raised e ])
      ]

  unfoldable pub resolve_and_validate : SsrfSettings → String → Bool → S → S × Outcome (List String)
  unfolding validate_host
  resolve_and_validate settings url strict s =
      if settings.block_private_ips
      then elim (net.urlparse url) [
        | none ↦ (s, raised a_value_error)
        | some parsed ↦
            if str_in parsed.scheme ("http" ∷ "https" ∷ [])
            then (let host = host_or_empty parsed in
                if is_empty host then (s, raised no_hostname) else validate_host host strict s)
            else (s, raised scheme_not_allowed)
      ]
      else (s, returned [])

  -- `entry[1:]` of an entry that starts with a dot.
  abbrev pub apex : String → String
  apex entry = slice entry 1 (len entry)

  abbrev pub matches_entry : String → String → Bool
  matches_entry host entry =
      if starts_with entry "."
      then str_eq host (apex entry) || ends_with host entry
      else str_eq host entry

  -- The loop over the entries.
  unfoldable pub matches_any : String → List String → Bool
  matches_any host [] = false
  matches_any host (entry ∷ entries) =
      let rest = matches_any host entries in
      if matches_entry host (net.lower entry) then true else rest

  -- The exception that gets through, if any.
  unfoldable pub assert_allowed_url : SsrfSettings → String → Option Exn
  unfolding matches_any
  assert_allowed_url settings url = elim settings.outbound_allowlist [
    | [] ↦ none
    | entry ∷ entries ↦ if str_in "*" (entry ∷ entries) then none else elim (net.urlparse url) [
      | none ↦ some a_value_error
      | some parsed ↦
          let host = net.lower (host_or_empty parsed) in
          if is_empty host
          then some no_hostname
          else if matches_any host (entry ∷ entries)
          then none
          else some not_in_allowlist
    ]
  ]
