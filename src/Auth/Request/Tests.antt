-- ===== src/Auth/Request/Tests.antt =====
-- A request whose token names another user as its `sub`.
use mls_ds.Prelude.{String, ◌≡◌, refl, true, false, none, some, [], find, exists, bytes_eq}
use mls_ds.Prelude.Strings.{split_at, rsplit_first}
use mls_ds.Prelude.Results.{ok}
use mls_ds.Sql.{World, Ensures, query}
use mls_ds.Did.{canonical_did}
use mls_ds.Wire.{as_bytes}
use mls_ds.Federation.Endpoint.{strip_prefix}
use mls_ds.Auth.Nonces.{Env, enforce_standard_with_replay_store, insert_nonce}
use mls_ds.Auth.Token.{verify_jwt, select_verification_method, extract_secp256k1_key}
use mls_ds.Auth.Token.Example.{jose, documents, claims}
use mls_ds.Auth.Request.{Limits, Stores, from_request_parts}
use mls_ds.Auth.Request.Admitted.{IsAdmitted, from_request_parts-IsAdmitted}

abbrev env : Env
env = record { enforce_lxm = none; enforce_jti = none; jti_ttl_seconds = 120 }

abbrev limits : Limits
limits = record { check_rate_limit = λ did. true; check_did_limit = λ did path. true }

abbrev path : String
path = "/xrpc/blue.catbird.mlsChat.getConvos"

abbrev world : World Stores
world = record {
  store = record { replay = record { auth_jti_nonce = []; jti_cache = [] }; peers = [] };
  fails = λ _. false;
  step = 0;
  fresh = λ _. "id";
  drawn = 0;
}

-- The issuer did:web:mallory is let in as did:web:alice.
let_in_as_alice :
    (from_request_parts jose documents env
      (some "did:web:ds")
      limits
      10
      path
      (some "Bearer h.p.k")
      world).0
    ≡ ok (record { did = "did:web:alice"; claims = claims })
unfolding from_request_parts verify_jwt split_at rsplit_first find select_verification_method
    extract_secp256k1_key as_bytes bytes_eq strip_prefix enforce_standard_with_replay_store query
    insert_nonce exists canonical_did
let_in_as_alice = refl

from_request_parts-IsAdmitted_example :
    Ensures
      (λ user w'.
        IsAdmitted jose documents env
          (some "did:web:ds")
          limits
          10
          path
          (some "Bearer h.p.k")
          world
          user
          w')
      (from_request_parts jose documents env
        (some "did:web:ds")
        limits
        10
        path
        (some "Bearer h.p.k")
        world)
from_request_parts-IsAdmitted_example =
    from_request_parts-IsAdmitted jose documents env (some "did:web:ds") limits 10 path
      (some "Bearer h.p.k") world
