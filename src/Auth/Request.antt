-- ===== src/Auth/Request.antt =====
-- server/src/auth.rs: AuthUser::from_request_parts, over the stores of nonces and of peers. `Limits` is
-- what the rate limiters of this server say of a request.
pub mod Admitted
mod Tests
use mls_ds.Prelude.{ℕ, String, Bool, true, false, Option, none, some, if◌then◌else◌}
use mls_ds.Prelude.Results.{Result, ok, err, map_err}
use mls_ds.Sql.{World, Exec, pure, throw, lift, continue, ◌>>=◌, ◌>>◌}
use mls_ds.Did.{canonical_did}
use mls_ds.Federation.Endpoint.{strip_prefix}
use mls_ds.Federation.PeerPolicy.{Peers, record_invalid_token}
use mls_ds.Auth.Types.{
  AuthError, missing_auth_header, invalid_auth_format, rate_limit_exceeded, Failure, refused,
  AtProtoClaims, DidDocument,
}
use mls_ds.Auth.Nonces.{Env, ReplayStore, enforce_standard_with_replay_store}
use mls_ds.Auth.Token.{Jose, verify_jwt}

pub record AuthUser : Type 0 where
  pub did : String
  pub claims : AtProtoClaims

pub record Limits : Type 0 where
  pub check_rate_limit : String → Bool
  pub check_did_limit : String → String → Bool

pub record Stores : Type 0 where
  pub replay : ReplayStore
  pub peers : Peers

abbrev pub Job : Type 0 → Type 0
Job A = Exec Stores Failure A

-- The world with one of its stores alone, and with that store put back.
abbrev pub focus : {S T : Type 0} → World S → T → World T
focus w store = record {
  store = store;
  fails = w.fails;
  step = w.step;
  fresh = w.fresh;
  drawn = w.drawn;
}

abbrev pub on_replay :
    {A : Type 0} → Exec ReplayStore AuthError A → World Stores → Result AuthError A × World Stores
on_replay m w =
    let r = m (focus w w.store.replay) in (r.0, focus r.1 (record w.store { replay = r.1.store }))

abbrev pub on_peers : (World Peers → World Peers) → World Stores → World Stores
on_peers f w = let v = f (focus w w.store.peers) in focus v (record w.store { peers = v.store })

abbrev pub endpoint_nsid_from_path : String → Option String
endpoint_nsid_from_path path = strip_prefix "/xrpc/" path

abbrev pub or_iss : Option String → String → String
or_iss none iss = iss
or_iss (some sub) iss = sub

abbrev pub is_some : Option String → Bool
is_some none = false
is_some (some s) = true

module _ (jose : Jose) (resolve_did : String → Result AuthError DidDocument) (env : Env)
    (service_did : Option String) (limits : Limits) (now : ℕ) (path : String) where
  -- An error of the check is also counted against a peer that calls a DS endpoint.
  abbrev pub after_enforced : AtProtoClaims → String → Result AuthError (Unit {0}) → Job String
  after_enforced claims nsid (ok a) w = pure (canonical_did claims.iss) w
  after_enforced claims nsid (err e) w =
      if is_some (strip_prefix "blue.catbird.mls.ds." nsid)
      then throw (refused e) (on_peers (record_invalid_token now (canonical_did claims.iss)) w)
      else throw (refused e) w

  abbrev pub enforce_endpoint : AtProtoClaims → String → Job String
  enforce_endpoint claims nsid w =
      let r = on_replay (enforce_standard_with_replay_store env now claims nsid) w in
      after_enforced claims nsid r.0 r.1

  -- The issuer that the limits are for.
  abbrev pub issuer_for_limits : AtProtoClaims → Option String → Job String
  issuer_for_limits claims none = pure claims.iss
  issuer_for_limits claims (some nsid) = enforce_endpoint claims nsid

  abbrev pub within : Bool → Job (Unit {0})
  within b = if b then pure tt else throw (refused rate_limit_exceeded)

  abbrev pub admit : AtProtoClaims → Job AuthUser
  admit claims = do
    issuer ← issuer_for_limits claims (endpoint_nsid_from_path path)
    within (limits.check_rate_limit issuer)
    within (limits.check_did_limit issuer path)
    pure (record { did = or_iss claims.sub claims.iss; claims = claims })

  abbrev pub on_token : Option String → Job AuthUser
  on_token none = throw (refused invalid_auth_format)
  on_token (some token) =
      lift (verify_jwt jose resolve_did service_did now token) >>= λ claims. admit claims

  abbrev pub on_header : Option String → Job AuthUser
  on_header none = throw (refused missing_auth_header)
  on_header (some auth_header) = on_token (strip_prefix "Bearer " auth_header)

  unfoldable pub from_request_parts : Option String → Job AuthUser
  from_request_parts authorization = on_header authorization
