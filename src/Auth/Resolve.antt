-- ===== src/Auth/Resolve.antt =====
-- server/src/auth.rs: AuthMiddleware::resolve_did with its cache, and the hosts that it asks. `DidNet` is
-- HTTP, DNS and the parser of addresses during one call, with the texts of their errors. A time is a
-- number of seconds.
pub mod Hosts
pub mod Fetched
mod Tests
use Prim.Native.String.{◌++◌}
use mls_ds.Prelude as P
use mls_ds.Prelude.{
  ℕ, ◌+◌, String, Bool, true, false, not, ◌&&◌, ◌||◌, Option, none, some, List, [], ◌∷◌, find,
  where_, str_eq, ltb, if◌then◌else◌,
}
use mls_ds.Prelude.Strings.{split_at, to_ascii_lowercase, ends_with}
use mls_ds.Prelude.Results.{Result, ok, err, ok_or, map_err, ◌>>=◌, ◌>>◌}
use mls_ds.Federation.Endpoint.{strip_prefix, slashes}
use mls_ds.Federation.Address.{
  Ipv4Addr, Ipv6Addr, IpAddr, v4, v6, is_loopback_v4, is_private_v4, is_unspecified_v4,
  is_link_local_v4, is_multicast_v4, is_only_last, is_unique_local_v6, is_multicast_v6,
  is_unicast_link_local_v6,
}
use mls_ds.Federation.Url.{host_is_allowlisted}
use mls_ds.Federation.Repo.{is_success}
use mls_ds.Auth.Types.{AuthError, invalid_did, did_resolution_failed, DidDocument}

pub record Response : Type 0 where
  pub status : ℕ
  pub body : Result String DidDocument

pub record DidNet : Type 0 where
  pub parse_ip : String → Option IpAddr
  pub lookup_host : String → ℕ → Result String (List IpAddr)
  -- The answer in the end: the client follows redirects.
  pub get : String → Result String Response

pub record CachedDidDoc : Type 0 where
  pub did : String
  pub doc : DidDocument
  pub cached_at : ℕ

abbrev pub Checked : Type 0
Checked = Result AuthError (Unit {0})

abbrev pub failed : String → AuthError
failed reason = did_resolution_failed reason

abbrev pub refuse_if : Bool → AuthError → Checked
refuse_if true e = err e
refuse_if false e = ok tt

unfoldable pub ip_is_disallowed : IpAddr → Bool
ip_is_disallowed (v4 ip) =
    is_private_v4 ip
    || is_loopback_v4 ip
    || is_link_local_v4 ip
    || is_multicast_v4 ip
    || is_unspecified_v4 ip
ip_is_disallowed (v6 ip) =
    is_unique_local_v6 ip
    || is_only_last 1 ip
    || is_only_last 0 ip
    || is_multicast_v6 ip
    || is_unicast_link_local_v6 ip

abbrev pub ip_test : Option IpAddr → Bool
ip_test none = false
ip_test (some ip) = ip_is_disallowed ip

-- The text of a refusal, without the address that the code shows.
abbrev pub blocked_ip : AuthError
blocked_ip = failed "host resolved to blocked IP"

-- The loop over the addresses of a host.
unfoldable pub check_addresses : Bool → List IpAddr → Checked
check_addresses saw_any [] = refuse_if (not saw_any) (failed "host resolved to zero addresses")
check_addresses saw_any (addr ∷ addrs) =
    let rest = check_addresses true addrs in if ip_is_disallowed addr then err blocked_ip else rest

abbrev pub in_allowlist : String → String → Option (List String) → Checked
in_allowlist reason host none = ok tt
in_allowlist reason host (some allowlist) =
    refuse_if (not (host_is_allowlisted host allowlist)) (failed reason)

-- `split('/').next()`
abbrev pub first_part : List String → String
first_part [] = ""
first_part (part ∷ parts) = part

abbrev pub is_some : Option String → Bool
is_some none = false
is_some (some s) = true

abbrev pub is_live : ℕ → ℕ → String → CachedDidDoc → Bool
is_live cache_ttl_seconds now did c = str_eq c.did did && ltb now (c.cached_at + cache_ttl_seconds)

-- An entry for the DID replaces the one that was there.
abbrev pub insert : ℕ → String → DidDocument → List CachedDidDoc → List CachedDidDoc
insert now did doc cache =
    record { did = did; doc = doc; cached_at = now } ∷ where_ (λ c. not (str_eq c.did did)) cache

module _ (net : DidNet) where
  unfoldable pub is_disallowed_host : String → Bool
  is_disallowed_host host =
      str_eq (to_ascii_lowercase host) "localhost"
      || ends_with host ".localhost"
      || ip_test (net.parse_ip host)

  abbrev pub on_lookup : Result String (List IpAddr) → Checked
  on_lookup (err e) = err (failed ("DNS resolution failed: " ++ e))
  on_lookup (ok addrs) = check_addresses false addrs

  abbrev pub named_or_literal : String → ℕ → Option IpAddr → Checked
  named_or_literal host port (some ip) = refuse_if (ip_is_disallowed ip) blocked_ip
  named_or_literal host port none = on_lookup (net.lookup_host host port)

  unfoldable pub validate_resolved_host_is_public : String → ℕ → Checked
  validate_resolved_host_is_public host port = named_or_literal host port (net.parse_ip host)

  -- A request, its status and its document. The text of a refusal leaves the status out.
  abbrev pub document_of : String → Result String Response → Result AuthError DidDocument
  document_of server (err e) = err (failed ("HTTP error: " ++ e))
  document_of server (ok response) = do
    refuse_if (not (is_success response.status)) (failed (server ++ " returned status"))
    map_err (λ e. failed ("Failed to parse DID document: " ++ e)) response.body

  module _ (did_host_allowlist : Option (List String)) where
    unfoldable pub resolve_plc_did : String → Result AuthError DidDocument
    resolve_plc_did did = do
      plc_id ← ok_or (strip_prefix "did:plc:" did) (invalid_did ("Invalid PLC DID: " ++ did))
      in_allowlist "plc.directory is not allowlisted" "plc.directory" did_host_allowlist
      validate_resolved_host_is_public "plc.directory" 443
      document_of "PLC directory" (net.get ("https://plc.directory/" ++ did))

    -- The document at a domain, which may have a path.
    abbrev pub web_document : String → String → Result AuthError DidDocument
    web_document domain host = do
      refuse_if (is_disallowed_host host) (failed "disallowed did:web host")
      in_allowlist "did:web host is not allowlisted" host did_host_allowlist
      validate_resolved_host_is_public host 443
      document_of "Web server" (net.get ("https://" ++ (domain ++ "/.well-known/did.json")))

    unfoldable pub resolve_web_did : String → Result AuthError DidDocument
    resolve_web_did did = do
      web_path ← ok_or (strip_prefix "did:web:" did) (invalid_did ("Invalid WEB DID: " ++ did))
      web_document (slashes web_path) (first_part (split_at b'/' (slashes web_path)))

    abbrev pub by_method : String → Result AuthError DidDocument
    by_method did =
        if is_some (strip_prefix "did:plc:" did)
        then resolve_plc_did did
        else if is_some (strip_prefix "did:web:" did)
        then resolve_web_did did
        else err (invalid_did ("Unsupported DID method: " ++ did))

    module _ (cache_ttl_seconds now : ℕ) where
      abbrev pub remembered :
          String
          → Result AuthError DidDocument
          → List CachedDidDoc
          → Result AuthError DidDocument × List CachedDidDoc
      remembered did (ok doc) cache = (ok doc, insert now did doc cache)
      remembered did (err e) cache = (err e, cache)

      abbrev pub on_cached :
          String
          → Option CachedDidDoc
          → List CachedDidDoc
          → Result AuthError DidDocument × List CachedDidDoc
      on_cached did (some c) cache = (ok c.doc, cache)
      on_cached did none cache = remembered did (by_method did) cache

      unfoldable pub resolve_did :
          String → List CachedDidDoc → Result AuthError DidDocument × List CachedDidDoc
      resolve_did did cache =
          if not (is_some (strip_prefix "did:" did))
          then (err (invalid_did ("DID must start with 'did:': " ++ did)), cache)
          else on_cached did (find (is_live cache_ttl_seconds now did) cache) cache
