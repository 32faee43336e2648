-- ===== src/Auth/Nonces/Taken.antt =====
-- What a check of a nonce that passes has done to the table.
use mls_ds.Prelude.{
  ℕ, String, ◌≡◌, refl, Bool, true, false, Option, none, some, exists, str_eq, eq_refl, Bool-cases,
  if◌then◌else◌, inl, inr,
}
use mls_ds.Prelude.Results.{Result, ok, err}
use mls_ds.Sql.{World, query, continue}
use mls_ds.Did.{canonical_did}
use mls_ds.Auth.Types.{AuthError, AtProtoClaims, replay_detected, internal}
use mls_ds.Auth.Nonces.{
  Env, ReplayStore, is_enforced, is_nonce, insert_nonce, local_key, claim_nonce, with_jti,
  checked_lxm, enforce_standard_with_replay_store,
}

-- The token's nonce was not in the table before, and is in it after.
abbrev pub IsTaken : AtProtoClaims → ReplayStore → ReplayStore → Type 0
IsTaken claims before after =
    (jti : String) × (claims.jti ≡ some jti)
    × (exists (is_nonce (canonical_did claims.iss) jti) before.auth_jti_nonce ≡ false)
    × (exists (is_nonce (canonical_did claims.iss) jti) after.auth_jti_nonce ≡ true)

module _ (env : Env) (now : ℕ) (claims : AtProtoClaims) (nsid : String) where
  claim_nonce-IsTaken :
      (jti : String) (w : World ReplayStore)
      → claims.jti ≡ some jti
      → (claim_nonce env now claims nsid jti w).0 ≡ ok tt
      → IsTaken claims w.store (claim_nonce env now claims nsid jti w).1.store
  unfolding query insert_nonce exists
  claim_nonce-IsTaken jti w e h = elim (Bool-cases (w.fails w.step)) [
    | inl t ↦ let n : err (internal "shared jti store failed") ≡ ok tt = (rw t at h) in absurd (cc)
    | inr f ↦
        elim (Bool-cases
          (exists (is_nonce (canonical_did claims.iss) jti) w.store.auth_jti_nonce)) [
            | inl t ↦ let n : err replay_detected ≡ ok tt = (rw (f, t) at h) in absurd (cc)
            | inr g ↦
                rw (f, g) (jti, e, g, rw (eq_refl (canonical_did claims.iss), eq_refl jti) refl)
          ]
  ]

  with_jti-IsTaken :
      (o : Option String) (w : World ReplayStore)
      → claims.jti ≡ o
      → (with_jti env now claims nsid o w).0 ≡ ok tt
      → IsTaken claims w.store (with_jti env now claims nsid o w).1.store
  with_jti-IsTaken none w e h = absurd (cc)
  with_jti-IsTaken (some jti) w e h =
      elim (Bool-cases
        (exists (str_eq (local_key (canonical_did claims.iss) jti)) w.store.jti_cache)) [
          | inl t ↦ let n : err replay_detected ≡ ok tt = (rw t at h) in absurd (cc)
          | inr f ↦ rw f (claim_nonce-IsTaken jti w e (rw f at h))
        ]

  -- Where nonces are enforced, a check that passes took the token's nonce.
  pub enforce_standard_with_replay_store-IsTaken :
      (w : World ReplayStore)
      → (enforce_standard_with_replay_store env now claims nsid w).0 ≡ ok tt
      → is_enforced env.enforce_jti ≡ true
      → IsTaken claims w.store (enforce_standard_with_replay_store env now claims nsid w).1.store
  unfolding enforce_standard_with_replay_store
  enforce_standard_with_replay_store-IsTaken w h on =
      go (checked_lxm env now claims nsid) (is_enforced env.enforce_jti) on h
    where
      go :
          (r : Result AuthError (Unit {0})) (b : Bool)
          → b ≡ true
          → (continue r
              (λ _. if b then with_jti env now claims nsid claims.jti else (λ v. (ok tt, v)))
              w).0
            ≡ ok tt
          → IsTaken claims w.store
              (continue r
                (λ _. if b then with_jti env now claims nsid claims.jti else (λ v. (ok tt, v)))
                w).1.store
      go (err x) b e k = absurd (cc)
      go (ok a) true e k = with_jti-IsTaken claims.jti w refl k
      go (ok a) false e k = absurd (cc)
