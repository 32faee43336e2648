-- ===== src/Auth/Resolve/Tests.antt =====
-- A document at a domain, asked for twice, and a host inside the network.
use mls_ds.Prelude.{
  String, ◌≡◌, refl, not, Option, none, some, List, [], ◌∷◌, str_eq, find, where_, exists,
  if◌then◌else◌,
}
use mls_ds.Prelude.Strings.{split_at, to_ascii_lowercase, ends_with}
use mls_ds.Prelude.Results.{Result, ok, err, OnOk}
use mls_ds.Federation.Address.{v4}
use mls_ds.Federation.Endpoint.{strip_prefix, slashes}
use mls_ds.Federation.Url.{host_is_allowlisted}
use mls_ds.Auth.Types.{DidDocument}
use mls_ds.Auth.Resolve.{
  DidNet, Response, resolve_did, resolve_web_did, is_disallowed_host,
  validate_resolved_host_is_public, check_addresses, ip_is_disallowed, failed,
}
use mls_ds.Auth.Resolve.Fetched.{
  CacheEvent, resolved, evicted, IsRecent, apply, apply_all, calls_of, resolve_did-IsRecent,
}

abbrev doc : DidDocument
doc = record { id = "did:web:ds.example:u"; verification_method = [] }

abbrev served : String → Result String Response
served url =
    if str_eq url "https://ds.example/u/.well-known/did.json"
    then ok (record { status = 200; body = ok doc })
    else ok (record { status = 404; body = err "no JSON" })

abbrev public_net : DidNet
public_net = record {
  parse_ip = λ s. none;
  lookup_host = λ host port. ok (v4 (record { a = 93; b = 184; c = 216; d = 34 }) ∷ []);
  get = served;
}

-- The domain now leads to a private address.
abbrev rebound_net : DidNet
rebound_net = record {
  parse_ip = λ s. none;
  lookup_host = λ host port. ok (v4 (record { a = 10; b = 0; c = 0; d = 1 }) ∷ []);
  get = served;
}

abbrev allow : Option (List String)
allow = some ("ds.example" ∷ [])

abbrev user : String
user = "did:web:ds.example:u"

at_the_domain : (resolve_did public_net allow 300 5 user []).0 ≡ ok doc
unfolding resolve_did resolve_web_did strip_prefix slashes split_at find where_ is_disallowed_host
    to_ascii_lowercase ends_with host_is_allowlisted validate_resolved_host_is_public
    check_addresses ip_is_disallowed exists
at_the_domain = refl

abbrev once : List CacheEvent
once = resolved 5 public_net user ∷ evicted (λ c. not (str_eq c.did "did:plc:x")) ∷ []

from_the_cache :
    (resolve_did rebound_net allow 300 304 user (apply_all allow 300 [] once)).0 ≡ ok doc
unfolding resolve_did resolve_web_did strip_prefix slashes split_at find where_ is_disallowed_host
    to_ascii_lowercase ends_with host_is_allowlisted validate_resolved_host_is_public
    check_addresses ip_is_disallowed exists apply apply_all
from_the_cache = refl

past_the_lifetime :
    (resolve_did rebound_net allow 300 305 user (apply_all allow 300 [] once)).0
    ≡ err (failed "host resolved to blocked IP")
unfolding resolve_did resolve_web_did strip_prefix slashes split_at find where_ is_disallowed_host
    to_ascii_lowercase ends_with host_is_allowlisted validate_resolved_host_is_public
    check_addresses ip_is_disallowed exists apply apply_all
past_the_lifetime = refl

resolve_did-IsRecent_example :
    OnOk
      (IsRecent allow 300 304 ((304, rebound_net) ∷ calls_of [] once) user)
      (resolve_did rebound_net allow 300 304 user (apply_all allow 300 [] once)).0
resolve_did-IsRecent_example = resolve_did-IsRecent allow 300 once 304 rebound_net user
