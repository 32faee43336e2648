-- ===== src/Auth/Nonces.antt =====
-- server/src/auth.rs: enforce_standard and enforce_standard_with_replay_store, over the table auth_jti_nonce that all servers
-- share and the JTI_CACHE of this one. `Env` is what the environment's variables say.
pub mod Once
pub mod Taken
mod Tests
use Prim.Native.String.{◌++◌}
use mls_ds.Prelude.{
  ℕ, ◌+◌, ◌-◌, String, Bool, true, not, ◌&&◌, ◌||◌, Option, none, some, List, [], ◌∷◌, where_,
  exists, length, str_eq, leb, if◌then◌else◌,
}
use mls_ds.Prelude.Results as R
use mls_ds.Prelude.Results.{Result, ok, err}
use mls_ds.Prelude.Strings.{to_ascii_lowercase}
use mls_ds.Sql.{World, Exec, query, pure, throw, lift, ◌>>=◌, ◌>>◌}
use mls_ds.Did.{canonical_did}
use mls_ds.Federation.Sequencer.{SqlError, database}
use mls_ds.Auth.Types.{
  AuthError, AtProtoClaims, missing_jti, replay_detected, missing_lxm, lxm_mismatch, internal,
}

pub record Env : Type 0 where
  -- ENFORCE_LXM and ENFORCE_JTI
  pub enforce_lxm : Option String
  pub enforce_jti : Option String
  -- JTI_TTL_SECONDS, or 120 where it is no number
  pub jti_ttl_seconds : ℕ

pub record Nonce : Type 0 where
  pub issuer_did : String
  pub jti : String
  pub endpoint_nsid : String
  pub expires_at : ℕ
  pub created_at : ℕ

pub record ReplayStore : Type 0 where
  pub auth_jti_nonce : List Nonce
  pub jti_cache : List String

abbrev pub Job : Type 0 → Type 0
Job A = Exec ReplayStore AuthError A

unfoldable pub truthy : String → Bool
truthy v = str_eq v "1" || str_eq v "true" || str_eq v "TRUE" || str_eq v "yes" || str_eq v "YES"

abbrev pub is_enforced : Option String → Bool
is_enforced none = true
is_enforced (some v) = truthy v

-- The test of ENFORCE_JTI in enforce_standard and, for both variables, in main.rs.
unfoldable pub truthy_any_case : String → Bool
truthy_any_case v =
    str_eq v "1" || str_eq (to_ascii_lowercase v) "true" || str_eq (to_ascii_lowercase v) "yes"

abbrev pub is_enforced_any_case : Option String → Bool
is_enforced_any_case none = true
is_enforced_any_case (some v) = truthy_any_case v

abbrev pub check_lxm : Option String → String → Result AuthError (Unit {0})
check_lxm none endpoint_nsid = err missing_lxm
check_lxm (some lxm) endpoint_nsid = if str_eq lxm endpoint_nsid then ok tt else err lxm_mismatch

abbrev pub is_nonce : String → String → Nonce → Bool
is_nonce issuer_did jti n = str_eq n.issuer_did issuer_did && str_eq n.jti jti

-- INSERT … ON CONFLICT (issuer_did, jti) DO NOTHING RETURNING issuer_did
unfoldable pub insert_nonce : Nonce → List Nonce → Option String × List Nonce
insert_nonce new ns =
    if exists (is_nonce new.issuer_did new.jti) ns
    then (none, ns)
    else (some new.issuer_did, new ∷ ns)

abbrev pub local_key : String → String → String
local_key issuer jti = issuer ++ ("|" ++ jti)

-- `JTI_CACHE.insert`
abbrev pub remember : String → Job (Unit {0})
remember key w =
    (ok tt, record w { store = record w.store { jti_cache = key ∷ w.store.jti_cache } })

abbrev pub on_inserted : String → Option String → Job (Unit {0})
on_inserted key none = throw replay_detected
on_inserted key (some issuer) = remember key

module _ (env : Env) (now : ℕ) (claims : AtProtoClaims) (endpoint_nsid : String) where
  abbrev pub nonce_for : String → Nonce
  nonce_for jti = record {
    issuer_did = canonical_did claims.iss;
    jti = jti;
    endpoint_nsid = endpoint_nsid;
    expires_at = now + env.jti_ttl_seconds;
    created_at = now;
  }

  abbrev pub put_nonce : String → ReplayStore → Option String × ReplayStore
  put_nonce jti s =
      let r = insert_nonce (nonce_for jti) s.auth_jti_nonce in
      (r.0, record s { auth_jti_nonce = r.1 })

  abbrev pub claim_nonce : String → Job (Unit {0})
  claim_nonce jti = do
    inserted ← query (internal "shared jti store failed") (λ s. some (put_nonce jti s))
    on_inserted (local_key (canonical_did claims.iss) jti) inserted

  abbrev pub unless_cached : String → Job (Unit {0})
  unless_cached jti w =
      if exists (str_eq (local_key (canonical_did claims.iss) jti)) w.store.jti_cache
      then throw replay_detected w
      else claim_nonce jti w

  abbrev pub with_jti : Option String → Job (Unit {0})
  with_jti none = throw missing_jti
  with_jti (some jti) = unless_cached jti

  abbrev pub checked_lxm : Result AuthError (Unit {0})
  checked_lxm = if is_enforced env.enforce_lxm then check_lxm claims.lxm endpoint_nsid else ok tt

  unfoldable pub enforce_standard_with_replay_store : Job (Unit {0})
  enforce_standard_with_replay_store =
      lift checked_lxm >> (if is_enforced env.enforce_jti then with_jti claims.jti else pure tt)

abbrev pub has_jti : Option String → Result AuthError (Unit {0})
has_jti none = err missing_jti
has_jti (some jti) = ok tt

-- The check without a store, which the handlers call.
unfoldable pub enforce_standard : Env → AtProtoClaims → String → Result AuthError (Unit {0})
enforce_standard env claims endpoint_nsid =
    R.◌>>◌ (if is_enforced env.enforce_lxm then check_lxm claims.lxm endpoint_nsid else ok tt)
      (if is_enforced_any_case env.enforce_jti then has_jti claims.jti else ok tt)

unfoldable pub cleanup_expired_jti_nonces : ℕ → Exec ReplayStore SqlError ℕ
cleanup_expired_jti_nonces now = query database (λ s.
    let kept = where_ (λ n. leb now n.expires_at) s.auth_jti_nonce in
    some (length s.auth_jti_nonce - length kept, record s { auth_jti_nonce = kept }))
