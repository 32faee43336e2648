-- ===== src/Federation/Url.antt =====
-- federation/resolver.rs: which URLs a request may go to. `Net` is what lies outside: the packages `url`
-- and `tokio::net`, the parser of `std::net` for addresses, and the environment's variables. The text
-- of a refusal stands as its parts.
pub mod Public
use Prim.Native.String.{[], ◌∷◌, ◌++◌}
use mathlib.Core.List
use mathlib.Core.Option
use mls_ds.Prelude.{
  ℕ, String, Bool, true, false, not, ◌&&◌, ◌||◌, Option, none, some, List, exists, where_, map,
  str_eq, if◌then◌else◌,
}
use mls_ds.Prelude.Strings.{to_ascii_lowercase, ends_with, split_at}
use mls_ds.Prelude.Results.{Result, ok, err, ◌>>=◌, ◌>>◌}
use mls_ds.Did.{is_empty}
use mls_ds.Federation.Endpoint.{is_white}
use mls_ds.Federation.Address.{IpAddr, is_private_ip}

pub record Url : Type 0 where
  pub scheme : String
  pub host_str : Option String
  pub port_or_known_default : Option ℕ

pub data Lookup : Type 0 where
  timed_out : Lookup
  failed : String → Lookup
  addresses : List IpAddr → Lookup

pub record Net : Type 0 where
  -- `Url::parse`, with the text of its error
  pub parse : String → Result String Url
  -- `str::parse::<IpAddr>`
  pub parse_ip : String → Option IpAddr
  -- `lookup_host` under `federation_dns_timeout`
  pub lookup_host : String → ℕ → Lookup
  -- FEDERATION_ALLOW_INSECURE_HTTP and FEDERATION_OUTBOUND_HOST_ALLOWLIST
  pub insecure_http : Option String
  pub outbound_hosts : Option String

pub data Reason : Type 0 where
  invalid_url not_https blocked_host not_in_allowlist lookup_timed_out no_address : String → Reason
  http_rejected host_missing : Reason
  non_global_ip : IpAddr → Reason
  resolved_to_blocked : String → IpAddr → Reason
  lookup_failed : String → String → Reason
  http_failed invalid_json did_http_error invalid_did_json unsupported_method : String → Reason
  pds_status did_status : ℕ → Reason
  no_value no_delivery_service no_services no_pds : Reason

-- federation/errors.rs: the errors of the resolver
pub data FederationError : Type 0 where
  database : FederationError
  endpoint_not_found : String → FederationError
  resolution_failed : String → Reason → FederationError

abbrev pub Checked : Type 0
Checked = Result FederationError (Unit {0})

-- An `if` that returns an error where the test fails.
abbrev pub ensure : Bool → FederationError → Checked
ensure true e = ok tt
ensure false e = err e

unfoldable pub allow_insecure_http : Option String → Bool
allow_insecure_http none = false
allow_insecure_http (some v) =
    str_eq v "1" || str_eq v "true" || str_eq v "TRUE" || str_eq v "yes" || str_eq v "YES"

abbrev pub trim_start : String → String
trim_start [] = []
trim_start (c ∷ s) = let rest = trim_start s in if is_white c then rest else c ∷ s

abbrev pub trim_end : String → String
trim_end [] = []
trim_end (c ∷ s) = let rest = trim_end s in if is_white c && is_empty rest then [] else c ∷ rest

-- An allowlist without an entry is none.
abbrev pub filled : List String → Option (List String)
filled List.[] = none
filled (List.◌∷◌ host hosts) = some (List.◌∷◌ host hosts)

abbrev pub entries : String → List String
entries raw =
    where_ (λ e. not (is_empty e))
      (map (λ e. to_ascii_lowercase (trim_end (trim_start e))) (split_at b',' raw))

unfoldable pub host_allowlist : Option String → Option (List String)
host_allowlist none = none
host_allowlist (some raw) = filled (entries raw)

unfoldable pub host_is_allowlisted : String → List String → Bool
host_is_allowlisted host allowlist =
    let host_lc = to_ascii_lowercase host in
    exists (λ allowed. str_eq host_lc allowed || ends_with host_lc ("." ++ allowed)) allowlist

unfoldable pub is_blocked_name : String → Bool
is_blocked_name host_lc =
    str_eq host_lc "localhost"
    || str_eq host_lc "127.0.0.1"
    || str_eq host_lc "0.0.0.0"
    || str_eq host_lc "::1"
    || ends_with host_lc ".localhost"

abbrev pub refused : Reason → FederationError
refused reason = resolution_failed "" reason

abbrev pub scheme_refused : String → FederationError
scheme_refused scheme = refused (if str_eq scheme "http" then http_rejected else not_https scheme)

-- The test of an address that the host itself is.
abbrev pub literal_is_public : Option IpAddr → Checked
literal_is_public none = ok tt
literal_is_public (some ip) = ensure (not (is_private_ip ip)) (refused (non_global_ip ip))

abbrev pub in_allowlist : String → Option (List String) → Checked
in_allowlist host none = ok tt
in_allowlist host (some allowlist) =
    ensure (host_is_allowlisted host allowlist) (refused (not_in_allowlist host))

-- The loop over the addresses of a host.
unfoldable pub check_addresses : String → Bool → List IpAddr → Checked
check_addresses host resolved_any List.[] = ensure resolved_any (refused (no_address host))
check_addresses host resolved_any (List.◌∷◌ addr addrs) =
    let rest = check_addresses host true addrs in
    if is_private_ip addr then err (refused (resolved_to_blocked host addr)) else rest

abbrev pub on_lookup : String → Lookup → Checked
on_lookup host timed_out = err (refused (lookup_timed_out host))
on_lookup host (failed reason) = err (refused (lookup_failed host reason))
on_lookup host (addresses addrs) = check_addresses host false addrs

abbrev pub unwrap_or : ℕ → Option ℕ → ℕ
unwrap_or d none = d
unwrap_or d (some n) = n

module _ (net : Net) where
  abbrev pub scheme_is_allowed : Bool → String → Bool
  scheme_is_allowed allow_http scheme =
      str_eq scheme "https" || (str_eq scheme "http" && allow_http)

  abbrev pub check_host : Option String → Checked
  check_host none = ok tt
  check_host (some host) = do
    ensure (not (is_blocked_name (to_ascii_lowercase host))) (refused (blocked_host host))
    literal_is_public (net.parse_ip host)
    in_allowlist host (host_allowlist net.outbound_hosts)

  abbrev pub parsed : Result String Url → Result FederationError Url
  parsed (ok url) = ok url
  parsed (err e) = err (refused (invalid_url e))

  unfoldable pub validate_endpoint_url_with_policy : String → Bool → Result FederationError Url
  validate_endpoint_url_with_policy url_str allow_http = do
    url ← parsed (net.parse url_str)
    ensure (scheme_is_allowed allow_http url.scheme) (scheme_refused url.scheme)
    check_host url.host_str
    ok url

  unfoldable pub validate_endpoint_url : String → Result FederationError Url
  validate_endpoint_url url_str =
      validate_endpoint_url_with_policy url_str (allow_insecure_http net.insecure_http)

  abbrev pub named_or_literal : Url → String → Option IpAddr → Checked
  named_or_literal url host (some ip) = literal_is_public (some ip)
  named_or_literal url host none =
      on_lookup host (net.lookup_host host (unwrap_or 443 url.port_or_known_default))

  abbrev pub on_host : Url → Option String → Checked
  on_host url none = err (refused host_missing)
  on_host url (some host) = named_or_literal url host (net.parse_ip host)

  unfoldable pub validate_resolved_host_is_public : Url → Checked
  validate_resolved_host_is_public url = on_host url url.host_str

  unfoldable pub validate_remote_url : String → Checked
  validate_remote_url url_str = do
    url ← validate_endpoint_url url_str
    validate_resolved_host_is_public url
