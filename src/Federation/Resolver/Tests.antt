-- ===== src/Federation/Resolver/Tests.antt =====
-- A user of another DS, looked up, kept and forgotten.
use mls_ds.Prelude.{ℕ, ◌≡◌, refl, true, false, none, some, find, str_eq, ◌↔◌, List, [], ◌∷◌, arith}
use mls_ds.Prelude.Int.{is_alive, pos, ◌+ℤ◌}
use mls_ds.Prelude.Results.{OnOk, ok}
use mls_ds.Sql.{World}
use mls_ds.Did.{canonical_did}
use mls_ds.Federation.Address.{Ipv6Addr, v6, is_private_ip}
use mls_ds.Federation.Address.Blocks.{is_blocked, is_private_ip-is_blocked}
use mls_ds.Prelude.Strings.{ends_with, to_ascii_lowercase}
use mls_ds.Federation.Endpoint.{strip_prefix, slashes}
use mls_ds.Federation.Url.{
  validate_remote_url, is_blocked_name, validate_endpoint_url, validate_endpoint_url_with_policy,
  validate_resolved_host_is_public, check_addresses, host_allowlist, allow_insecure_http,
}
use mls_ds.Federation.Url.Public.{IsSafe, validate_remote_url-IsSafe}
use mls_ds.Federation.Repo.{
  DsEndpoint, Web, resolve_from_repo, resolve_did_to_pds, find_pds, texts_of,
}
use mls_ds.Federation.Repo.Example.{documents, public_net, web, down}
use mls_ds.Federation.Resolver.{DsResolver, Endpoints, is_hit, resolve}
use mls_ds.Federation.Resolver.Vetted.{
  ResolverEvent, IsSourced, resolved, invalidated, cleaned, apply_all, nets_of, resolve-IsSourced,
}
use mls_ds.Federation.Resolver.Cached.{resolve-resolve}

-- ::ffff:127.0.0.1
abbrev mapped_loopback : Ipv6Addr
mapped_loopback = record {
  s0 = 0;
  s1 = 0;
  s2 = 0;
  s3 = 0;
  s4 = 0;
  s5 = 0xffff;
  s6 = 0x7f00;
  s7 = 1;
}

mapped_is_let_through : is_private_ip (v6 mapped_loopback) ≡ false
unfolding is_private_ip
mapped_is_let_through = refl

is_private_ip-is_blocked_example :
    is_private_ip (v6 mapped_loopback) ≡ is_blocked (v6 mapped_loopback)
is_private_ip-is_blocked_example = is_private_ip-is_blocked (v6 mapped_loopback) (
  omega arith,
  omega arith,
  omega arith,
  omega arith,
  omega arith,
  omega arith,
  omega arith,
  omega arith,
)

abbrev ds : DsResolver
ds = record {
  self_did = "did:web:here";
  self_endpoint = "https://here";
  default_ds = none;
  cache_ttl_secs = pos 3600;
}

abbrev world : World Endpoints
world = record { store = []; fails = λ _. false; step = 0; fresh = λ _. "id"; drawn = 0 }

abbrev answer : DsEndpoint
answer = record {
  did = "did:plc:u";
  endpoint = "https://ds.example";
  supported_cipher_suites = some ("suite 1" ∷ "suite 2" ∷ []);
}

from_repo : resolve_from_repo documents web "did:plc:u" ≡ ok answer
unfolding resolve_from_repo resolve_did_to_pds find_pds texts_of ends_with strip_prefix slashes
    validate_remote_url validate_endpoint_url validate_endpoint_url_with_policy
    validate_resolved_host_is_public check_addresses is_private_ip is_blocked_name
    to_ascii_lowercase host_allowlist allow_insecure_http
from_repo = refl

validate_remote_url-IsSafe_example :
    (validate_remote_url public_net "https://ds.example" ≡ ok tt)
    ↔ IsSafe public_net "https://ds.example"
validate_remote_url-IsSafe_example = validate_remote_url-IsSafe public_net "https://ds.example"

other_ds : str_eq (canonical_did "did:plc:u") (canonical_did ds.self_did) ≡ false
unfolding canonical_did
other_ds = refl

empty_cache : find (is_hit documents 5 "did:plc:u") world.store ≡ none
unfolding find
empty_cache = refl

fresh : is_alive 1000 (pos 5 +ℤ ds.cache_ttl_secs) ≡ true
unfolding ◌+ℤ◌
fresh = refl

resolve-resolve_example :
    let first = resolve documents ds 5 web "did:plc:u" world in
    (first.0 ≡ ok answer) × ((resolve documents ds 1000 down "did:plc:u" first.1).0 ≡ ok answer)
resolve-resolve_example =
    resolve-resolve documents ds 5 1000 web down "did:plc:u" answer world (λ n. refl) other_ds
      empty_cache from_repo fresh

abbrev calls : List (ℕ × Web documents × ResolverEvent)
calls =
    (5, web, resolved "did:plc:u") ∷ (6, down, invalidated "did:plc:v") ∷ (7, down, cleaned) ∷ []

resolve-IsSourced_example :
    OnOk
      (IsSourced ds (down.net ∷ nets_of documents [] calls))
      (resolve documents ds 8 down "did:plc:u" (apply_all documents ds world calls)).0
resolve-IsSourced_example = resolve-IsSourced documents ds calls 8 down "did:plc:u" world refl
