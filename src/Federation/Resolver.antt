-- ===== src/Federation/Resolver.antt =====
-- federation/resolver.rs: `DsResolver` and its table ds_endpoints, one row for a DID. A time is a number
-- of seconds.
pub mod Rows
pub mod Vetted
pub mod Cached
mod Tests
use mathlib.Core.Option
use mls_ds.Prelude.{
  ℕ, ◌-◌, ◌^◌, String, Bool, not, ◌&&◌, Option, none, some, List, [], ◌∷◌, where_, find, length,
  str_eq, ltb, if◌then◌else◌,
}
use mls_ds.Prelude.Int.{ℤ, pos, negsuc, ◌+ℤ◌, leb_ℤ, as_i64, is_alive}
use mls_ds.Prelude.Results.{Result, ok, err}
use mls_ds.Sql.{World, Exec, query, pure, throw, ◌>>=◌, ◌>>◌}
use mls_ds.Did.{canonical_did}
use mls_ds.Federation.Url.{FederationError, database, endpoint_not_found}
use mls_ds.Federation.Repo.{DsEndpoint, Json, Web, and_then, resolve_from_repo}

pub record DsResolver : Type 0 where
  pub self_did : String
  pub self_endpoint : String
  pub default_ds : Option String
  pub cache_ttl_secs : ℤ

unfoldable pub new_resolver : String → String → Option String → ℕ → DsResolver
new_resolver self_did self_endpoint default_ds cache_ttl_secs = record {
  self_did = self_did;
  self_endpoint = self_endpoint;
  default_ds = default_ds;
  cache_ttl_secs = as_i64 cache_ttl_secs;
}

pub record EndpointRow : Type 0 where
  pub did : String
  pub endpoint : String
  pub supported_cipher_suites : Option String
  pub resolved_at : ℕ
  pub expires_at : ℤ

abbrev pub Endpoints : Type 0
Endpoints = List EndpointRow

abbrev pub Job : Type 0 → Type 0
Job A = Exec Endpoints FederationError A

-- INSERT … ON CONFLICT (did) DO UPDATE
unfoldable pub upsert_endpoint : EndpointRow → Endpoints → Endpoints
upsert_endpoint new [] = new ∷ []
upsert_endpoint new (r ∷ rs) =
    let rest = upsert_endpoint new rs in if str_eq r.did new.did then new ∷ rs else r ∷ rest

unfoldable pub invalidate : String → Job (Unit {0})
invalidate did = query database (λ s. some (tt, where_ (λ r. not (str_eq r.did did)) s))

abbrev pub is_kept : ℕ → EndpointRow → Bool
is_kept now r = leb_ℤ (pos now) r.expires_at

unfoldable pub cleanup_expired : ℕ → Job ℕ
cleanup_expired now =
    query database (λ s. some (length s - length (where_ (is_kept now) s), where_ (is_kept now) s))

unfoldable pub is_self : DsResolver → String → Bool
is_self ds ds_did = str_eq (canonical_did ds_did) (canonical_did ds.self_did)

module _ (json : Json) where
  abbrev pub endpoint_of : EndpointRow → DsEndpoint
  endpoint_of r = record {
    did = r.did;
    endpoint = r.endpoint;
    supported_cipher_suites = and_then r.supported_cipher_suites json.from_str;
  }

  abbrev pub is_hit : ℕ → String → EndpointRow → Bool
  is_hit now did r = str_eq r.did did && is_alive now r.expires_at

  unfoldable pub get_cached : ℕ → String → Job (Option DsEndpoint)
  get_cached now did =
      query database (λ s. some (Option.map endpoint_of (find (is_hit now did) s), s))

  abbrev pub row_for : ℤ → ℕ → DsEndpoint → EndpointRow
  row_for ttl now e = record {
    did = e.did;
    endpoint = e.endpoint;
    supported_cipher_suites = and_then e.supported_cipher_suites json.to_string;
    resolved_at = now;
    expires_at = pos now +ℤ ttl;
  }

  unfoldable pub cache_endpoint : ℤ → ℕ → DsEndpoint → Job (Unit {0})
  cache_endpoint ttl now e = query database (λ s. some (tt, upsert_endpoint (row_for ttl now e) s))

  module _ (ds : DsResolver) (now : ℕ) (web : Web json) where
    abbrev pub self_endpoint : DsEndpoint
    self_endpoint = record {
      did = ds.self_did;
      endpoint = ds.self_endpoint;
      supported_cipher_suites = none;
    }

    abbrev pub fallback : String → Option String → Job DsEndpoint
    fallback user_did (some default) =
        pure (record { did = user_did; endpoint = default; supported_cipher_suites = none })
    fallback user_did none = throw (endpoint_not_found user_did)

    abbrev pub on_repo : String → Result FederationError DsEndpoint → Job DsEndpoint
    on_repo user_did (ok endpoint) = do cache_endpoint ds.cache_ttl_secs now endpoint; pure endpoint
    on_repo user_did (err e) = fallback user_did ds.default_ds

    abbrev pub on_cached : String → Option DsEndpoint → Job DsEndpoint
    on_cached user_did (some cached) = pure cached
    on_cached user_did none = on_repo user_did (resolve_from_repo json web user_did)

    abbrev pub look_up : String → Job DsEndpoint
    look_up user_did = do cached ← get_cached now user_did; on_cached user_did cached

    unfoldable pub resolve : String → Job DsEndpoint
    resolve user_did =
        if str_eq (canonical_did user_did) (canonical_did ds.self_did)
        then pure self_endpoint
        else look_up user_did

    -- No error ends the loop.
    unfoldable pub resolve_many :
        List String
        → World Endpoints
        → List (String × Result FederationError DsEndpoint) × World Endpoints
    resolve_many [] w = ([], w)
    resolve_many (did ∷ dids) w =
        let r = resolve did w in let rest = resolve_many dids r.1 in ((did, r.0) ∷ rest.0, rest.1)
