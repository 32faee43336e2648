-- ===== src/Auth/Nonces/Once.antt =====
-- A token's nonce is accepted once.
use mls_ds.Prelude.{
  Any, ℕ, ◌+◌, ◌≤◌, String, ◌≡◌, ◌≢◌, refl, ◌∙◌, inl, inr, Bool, true, false, not, Option, none,
  some, List, [], ◌∷◌, All, exists, where_, str_eq, eq_refl, leb, Bool-cases, if◌then◌else◌, arith,
}
use mls_ds.Prelude.Results.{Result, ok, err}
use mls_ds.Sql.{World, query, continue, next}
use mls_ds.Did.{canonical_did}
use mls_ds.Auth.Types.{AuthError, AtProtoClaims, replay_detected, internal}
use mls_ds.Auth.Nonces.{
  Env, Nonce, ReplayStore, is_enforced, is_nonce, insert_nonce, local_key, on_inserted, nonce_for,
  put_nonce, claim_nonce, with_jti, checked_lxm, enforce_standard_with_replay_store,
  cleanup_expired_jti_nonces,
}

-- The nonce is in the table, with an end that is not before a time.
abbrev IsHeld : String → String → ℕ → Nonce → Type 0
IsHeld issuer jti end n = (is_nonce issuer jti n ≡ true) × (end ≤ n.expires_at)

abbrev Holds : String → String → ℕ → World ReplayStore → Type 0
Holds issuer jti end w = Any (IsHeld issuer jti end) w.store.auth_jti_nonce

exists-IsHeld :
    (issuer jti : String) (end : ℕ) (ns : List Nonce)
    → Any (IsHeld issuer jti end) ns
    → exists (is_nonce issuer jti) ns ≡ true
unfolding exists
exists-IsHeld issuer jti end [] h = absurd h
exists-IsHeld issuer jti end (n ∷ ns) (inl h) = rw h.0 refl
exists-IsHeld issuer jti end (n ∷ ns) (inr h) = elim (Bool-cases (is_nonce issuer jti n)) [
  | inl t ↦ rw t refl
  | inr f ↦ rw f (exists-IsHeld issuer jti end ns h)
]

kept-IsHeld :
    (issuer jti : String) (end now : ℕ) (ns : List Nonce)
    → now ≤ end
    → Any (IsHeld issuer jti end) ns
    → Any (IsHeld issuer jti end) (where_ (λ n. leb now n.expires_at) ns)
unfolding where_
kept-IsHeld issuer jti end now [] le h = h
kept-IsHeld issuer jti end now (n ∷ ns) le (inl h) =
    let k : leb now n.expires_at ≡ true = ground arith in rw k (inl h)
kept-IsHeld issuer jti end now (n ∷ ns) le (inr h) = elim (Bool-cases (leb now n.expires_at)) [
  | inl t ↦ rw t (inr (kept-IsHeld issuer jti end now ns le h))
  | inr f ↦ rw f (kept-IsHeld issuer jti end now ns le h)
]

kept_by_insert :
    (issuer jti : String) (end : ℕ) (new : Nonce) (ns : List Nonce)
    → Any (IsHeld issuer jti end) ns
    → Any (IsHeld issuer jti end) (insert_nonce new ns).1
unfolding insert_nonce
kept_by_insert issuer jti end new ns h =
    elim (Bool-cases (exists (is_nonce new.issuer_did new.jti) ns)) [
      | inl t ↦ rw t h
      | inr f ↦ rw f (inr h)
    ]

-- A check of a request, a run of the cleanup task, or an entry that leaves this server's cache.
pub data ReplayEvent : Type 0 where
  presented : ℕ → AtProtoClaims → String → ReplayEvent
  cleaned : ℕ → ReplayEvent
  dropped : String → ReplayEvent

module _ (env : Env) where
  module _ (now : ℕ) (claims : AtProtoClaims) (nsid : String) where
    -- What a check leaves of a nonce that the table holds.
    inserted_Holds :
        (issuer jti : String) (end : ℕ) (key : String) (o : Option String) (w : World ReplayStore)
        → Holds issuer jti end w
        → Holds issuer jti end (on_inserted key o w).1
    inserted_Holds issuer jti end key none w h = h
    inserted_Holds issuer jti end key (some x) w h = h

    claimed_Holds :
        (issuer jti : String) (end : ℕ) (mine : String) (w : World ReplayStore)
        → Holds issuer jti end w
        → Holds issuer jti end (claim_nonce env now claims nsid mine w).1
    unfolding query
    claimed_Holds issuer jti end mine w h = elim (Bool-cases (w.fails w.step)) [
      | inl t ↦ rw t h
      | inr f ↦ rw f (
          inserted_Holds issuer jti end (local_key (canonical_did claims.iss) mine)
            (put_nonce env now claims nsid mine w.store).0
            (next w (put_nonce env now claims nsid mine w.store).1)
            (kept_by_insert issuer jti end (nonce_for env now claims nsid mine)
              w.store.auth_jti_nonce h))
    ]

    jti_Holds :
        (issuer jti : String) (end : ℕ) (o : Option String) (w : World ReplayStore)
        → Holds issuer jti end w
        → Holds issuer jti end (with_jti env now claims nsid o w).1
    jti_Holds issuer jti end none w h = h
    jti_Holds issuer jti end (some mine) w h =
        elim (Bool-cases
          (exists (str_eq (local_key (canonical_did claims.iss) mine)) w.store.jti_cache)) [
            | inl t ↦ rw t h
            | inr f ↦ rw f (claimed_Holds issuer jti end mine w h)
          ]

    enforced_Holds :
        (issuer jti : String) (end : ℕ) (r : Result AuthError (Unit {0})) (b : Bool)
        (w : World ReplayStore)
        → Holds issuer jti end w
        → Holds issuer jti end
            (continue r
              (λ _. if b then with_jti env now claims nsid claims.jti else (λ v. (ok tt, v)))
              w).1
    enforced_Holds issuer jti end (err e) b w h = h
    enforced_Holds issuer jti end (ok a) true w h = jti_Holds issuer jti end claims.jti w h
    enforced_Holds issuer jti end (ok a) false w h = h

    -- A check that passes leaves its nonce in the table; one whose nonce is there does not pass.
    claimed_ok :
        (mine : String) (w : World ReplayStore)
        → (claim_nonce env now claims nsid mine w).0 ≡ ok tt
        → Holds
            (canonical_did claims.iss)
            mine
            (now + env.jti_ttl_seconds)
            (claim_nonce env now claims nsid mine w).1
    unfolding query insert_nonce
    claimed_ok mine w h = elim (Bool-cases (w.fails w.step)) [
      | inl t ↦ let n : err (internal "shared jti store failed") ≡ ok tt = (rw t at h) in cc
      | inr f ↦
          elim (Bool-cases
            (exists (is_nonce (canonical_did claims.iss) mine) w.store.auth_jti_nonce)) [
              | inl t ↦ let n : err replay_detected ≡ ok tt = (rw (f, t) at h) in cc
              | inr g ↦
                  rw (f, g)
                    (inl (rw (eq_refl (canonical_did claims.iss), eq_refl mine) refl, omega arith))
            ]
    ]

    claimed_refused :
        (mine : String) (end : ℕ) (w : World ReplayStore)
        → Holds (canonical_did claims.iss) mine end w
        → (claim_nonce env now claims nsid mine w).0 ≢ ok tt
    unfolding query insert_nonce
    claimed_refused mine end w h = elim (Bool-cases (w.fails w.step)) [
      | inl t ↦ rw t (λ k. cc)
      | inr f ↦
          rw (f, exists-IsHeld (canonical_did claims.iss) mine end w.store.auth_jti_nonce h)
            (λ k. cc)
    ]

    enforce_ok :
        (w : World ReplayStore) (b : Bool) (o : Option String) (r : Result AuthError (Unit {0}))
        → b ≡ true
        → (continue r (λ _. if b then with_jti env now claims nsid o else (λ v. (ok tt, v))) w).0
          ≡ ok tt
        → (jti : String) × (o ≡ some jti)
          × Holds
              (canonical_did claims.iss)
              jti
              (now + env.jti_ttl_seconds)
              (continue r
                (λ _. if b then with_jti env now claims nsid o else (λ v. (ok tt, v)))
                w).1
    enforce_ok w b o (err e) on h = cc
    enforce_ok w false o (ok a) on h = cc
    enforce_ok w true none (ok a) on h = cc
    enforce_ok w true (some jti) (ok a) on h =
        elim (Bool-cases
          (exists (str_eq (local_key (canonical_did claims.iss) jti)) w.store.jti_cache)) [
            | inl t ↦ let n : err replay_detected ≡ ok tt = (rw t at h) in cc
            | inr f ↦
                let k : (claim_nonce env now claims nsid jti w).0 ≡ ok tt = (rw f at h) in
                (jti, refl, rw f (claimed_ok jti w k))
          ]

    enforce_refused :
        (w : World ReplayStore) (b : Bool) (jti : String) (end : ℕ) (o : Option String)
        (r : Result AuthError (Unit {0}))
        → b ≡ true
        → o ≡ some jti
        → Holds (canonical_did claims.iss) jti end w
        → (continue r (λ _. if b then with_jti env now claims nsid o else (λ v. (ok tt, v))) w).0
          ≢ ok tt
    enforce_refused w b jti end o (err e) on same h = λ k. cc
    enforce_refused w b jti end o (ok a) on same h =
        rw (on, same)
          (elim (Bool-cases
            (exists (str_eq (local_key (canonical_did claims.iss) jti)) w.store.jti_cache)) [
              | inl t ↦ rw t (λ k. cc)
              | inr f ↦ rw f (claimed_refused jti end w h)
            ])

  unfoldable pub apply : World ReplayStore → ReplayEvent → World ReplayStore
  apply w (presented now claims nsid) = (enforce_standard_with_replay_store env now claims nsid w).1
  apply w (cleaned now) = (cleanup_expired_jti_nonces now w).1
  apply w (dropped key) = record w {
    store = record w.store { jti_cache = where_ (λ k. not (str_eq k key)) w.store.jti_cache };
  }

  unfoldable pub apply_all : World ReplayStore → List ReplayEvent → World ReplayStore
  apply_all w [] = w
  apply_all w (e ∷ es) = apply_all (apply w e) es

  -- A cleanup that runs at a time or before.
  abbrev pub IsBefore : ℕ → ReplayEvent → Type 0
  IsBefore end (presented now claims nsid) = Unit
  IsBefore end (cleaned now) = now ≤ end
  IsBefore end (dropped key) = Unit

  cleaned_Holds :
      (issuer jti : String) (end now : ℕ) (w : World ReplayStore)
      → now ≤ end
      → Holds issuer jti end w
      → Holds issuer jti end (cleanup_expired_jti_nonces now w).1
  unfolding cleanup_expired_jti_nonces query
  cleaned_Holds issuer jti end now w b h = elim (Bool-cases (w.fails w.step)) [
    | inl t ↦ rw t h
    | inr f ↦ rw f (kept-IsHeld issuer jti end now w.store.auth_jti_nonce b h)
  ]

  apply_Holds :
      (issuer jti : String) (end : ℕ) (e : ReplayEvent) (w : World ReplayStore)
      → IsBefore end e
      → Holds issuer jti end w
      → Holds issuer jti end (apply w e)
  unfolding apply enforce_standard_with_replay_store
  apply_Holds issuer jti end (presented now claims nsid) w b h =
      enforced_Holds now claims nsid issuer jti end (checked_lxm env now claims nsid)
        (is_enforced env.enforce_jti) w h
  apply_Holds issuer jti end (cleaned now) w b h = cleaned_Holds issuer jti end now w b h
  apply_Holds issuer jti end (dropped key) w b h = h

  run_Holds :
      (issuer jti : String) (end : ℕ) (es : List ReplayEvent) (w : World ReplayStore)
      → All (IsBefore end) es
      → Holds issuer jti end w
      → Holds issuer jti end (apply_all w es)
  unfolding apply_all
  run_Holds issuer jti end [] w b h = h
  run_Holds issuer jti end (e ∷ es) w (b, bs) h =
      run_Holds issuer jti end es (apply w e) bs (apply_Holds issuer jti end e w b h)

  -- Where the check of nonces is on and accepts a token, no token with the same canonical issuer and
  -- nonce is accepted after it, for whatever endpoint and after whatever checks, cleanups and losses of
  -- this server's cache, and whatever statements fail, as long as no cleanup runs later than the
  -- nonce's lifetime after the acceptance.
  pub enforce_standard_with_replay_store-once :
      (now now' : ℕ) (claims claims' : AtProtoClaims) (nsid nsid' : String) (es : List ReplayEvent)
      (w : World ReplayStore)
      → is_enforced env.enforce_jti ≡ true
      → canonical_did claims'.iss ≡ canonical_did claims.iss
      → claims'.jti ≡ claims.jti
      → All (IsBefore (now + env.jti_ttl_seconds)) es
      → (enforce_standard_with_replay_store env now claims nsid w).0 ≡ ok tt
      → (enforce_standard_with_replay_store env now' claims' nsid'
          (apply_all (enforce_standard_with_replay_store env now claims nsid w).1 es)).0
        ≢ ok tt
  unfolding enforce_standard_with_replay_store
  enforce_standard_with_replay_store-once now now' claims claims' nsid nsid' es w on same_iss
        same_jti bs h =
      let on_b = is_enforced env.enforce_jti in
      let end = now + env.jti_ttl_seconds in
      let (jti, mine, held) =
        enforce_ok now claims nsid w on_b claims.jti (checked_lxm env now claims nsid) on h in
      let after = (enforce_standard_with_replay_store env now claims nsid w).1 in
      let kept : Holds (canonical_did claims.iss) jti end (apply_all after es) =
        run_Holds (canonical_did claims.iss) jti end es after bs held in
      let kept' : Holds (canonical_did claims'.iss) jti end (apply_all after es) =
        rw same_iss kept in
      enforce_refused now' claims' nsid' (apply_all after es) on_b jti end claims'.jti
        (checked_lxm env now' claims' nsid') on (same_jti ∙ mine) kept'
