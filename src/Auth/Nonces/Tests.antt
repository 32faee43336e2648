-- ===== src/Auth/Nonces/Tests.antt =====
-- A token that is presented again.
use mls_ds.Prelude.{◌≡◌, ◌≢◌, refl, false, none, some, List, [], ◌∷◌, arith, exists, where_}
use mls_ds.Prelude.Int.{pos}
use mls_ds.Prelude.Results.{ok, err}
use mls_ds.Prelude.Strings.{to_ascii_lowercase}
use mls_ds.Sql.{World, query}
use mls_ds.Did.{canonical_did}
use mls_ds.Auth.Types.{AtProtoClaims, missing_jti}
use mls_ds.Auth.Nonces.{
  Env, ReplayStore, enforce_standard, truthy, truthy_any_case, insert_nonce,
  enforce_standard_with_replay_store, cleanup_expired_jti_nonces,
}
use mls_ds.Auth.Nonces.Once.{
  ReplayEvent, presented, cleaned, dropped, apply, apply_all,
  enforce_standard_with_replay_store-once,
}

abbrev env : Env
env = record { enforce_lxm = none; enforce_jti = none; jti_ttl_seconds = 120 }

abbrev claims : AtProtoClaims
claims = record {
  iss = "did:web:a#k";
  aud = "did:web:ds";
  exp = pos 1000000;
  iat = none;
  sub = none;
  lxm = some "m";
  jti = some "n1";
}

abbrev world : World ReplayStore
world = record {
  store = record { auth_jti_nonce = []; jti_cache = [] };
  fails = λ _. false;
  step = 0;
  fresh = λ _. "id";
  drawn = 0;
}

first : (enforce_standard_with_replay_store env 10 claims "m" world).0 ≡ ok tt
unfolding enforce_standard_with_replay_store query insert_nonce exists canonical_did
first = refl

abbrev later : List ReplayEvent
later = dropped "did:web:a|n1" ∷ presented 20 claims "m" ∷ cleaned 130 ∷ []

enforce_standard_with_replay_store-once_example :
    (enforce_standard_with_replay_store env 140 claims "m"
      (apply_all env (enforce_standard_with_replay_store env 10 claims "m" world).1 later)).0
    ≢ ok tt
enforce_standard_with_replay_store-once_example =
    enforce_standard_with_replay_store-once env 10 140 claims claims "m" "m" later world refl refl
      refl (tt, (tt, (omega arith, tt))) first

-- One second after the nonce's end the same token, which has not expired, is accepted again.
accepted_again :
    let w =
      apply_all env
        (enforce_standard_with_replay_store env 10 claims "m" world).1
        (dropped "did:web:a|n1" ∷ cleaned 131 ∷ []) in
    (enforce_standard_with_replay_store env 132 claims "m" w).0 ≡ ok tt
unfolding apply_all apply enforce_standard_with_replay_store cleanup_expired_jti_nonces query
    insert_nonce exists where_ canonical_did
accepted_again = refl

abbrev capital_env : Env
capital_env = record { enforce_lxm = some "true"; enforce_jti = some "True"; jti_ttl_seconds = 120 }

abbrev no_nonce : AtProtoClaims
no_nonce = record claims { jti = none }

-- ENFORCE_JTI=True is on for the check without a store and off for the one with the store, which
-- accepts a token without a nonce.
two_readings :
    (enforce_standard capital_env no_nonce "m" ≡ err missing_jti)
    × ((enforce_standard_with_replay_store capital_env 10 no_nonce "m" world).0 ≡ ok tt)
unfolding enforce_standard truthy_any_case truthy to_ascii_lowercase
    enforce_standard_with_replay_store
two_readings = (refl, refl)
