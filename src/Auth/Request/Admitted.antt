-- ===== src/Auth/Request/Admitted.antt =====
-- Who is let in.
use mls_ds.Prelude.{
  ℕ, String, ◌≡◌, refl, sym, ap, subst, Bool, true, false, Option, none, some, str_eq, eq_iff,
  Bool-cases, inl, inr,
}
use mls_ds.Prelude.Results.{Result, ok, err}
use mls_ds.Sql.{World, Ensures, Ensures-bind, continue}
use mls_ds.Federation.Endpoint.{strip_prefix}
use mls_ds.Auth.Types.{AuthError, Failure, AtProtoClaims, DidDocument, lxm_mismatch}
use mls_ds.Auth.Nonces.{
  Env, ReplayStore, is_enforced, check_lxm, checked_lxm, enforce_standard_with_replay_store,
}
use mls_ds.Auth.Nonces.Taken.{IsTaken, enforce_standard_with_replay_store-IsTaken}
use mls_ds.Auth.Token.{Jose, verify_jwt}
use mls_ds.Auth.Token.Genuine.{IsGenuine, verify_jwt-IsGenuine}
use mls_ds.Auth.Request.{
  AuthUser, Limits, Stores, focus, on_replay, endpoint_nsid_from_path, or_iss, is_some,
  after_enforced, enforce_endpoint, issuer_for_limits, within, admit, on_token, from_request_parts,
}

-- On an endpoint, where that is enforced, the token names it and its nonce was taken in this request.
abbrev pub IsFresh : Env → Option String → AtProtoClaims → ReplayStore → ReplayStore → Type 0
IsFresh env none claims before after = Unit
IsFresh env (some nsid) claims before after =
    (is_enforced env.enforce_lxm ≡ true → claims.lxm ≡ some nsid)
    × (is_enforced env.enforce_jti ≡ true → IsTaken claims before after)

lxm_ok : (lxm : Option String) (nsid : String) → check_lxm lxm nsid ≡ ok tt → lxm ≡ some nsid
lxm_ok none nsid h = cc
lxm_ok (some l) nsid h = elim (Bool-cases (str_eq l nsid)) [
  | inl t ↦ ap some ((eq_iff l nsid).0 t)
  | inr f ↦ let n : err lxm_mismatch ≡ ok tt = (rw f at h) in cc
]

first_ok :
    (r : Result AuthError (Unit {0}))
    (k : World ReplayStore → Result AuthError (Unit {0}) × World ReplayStore)
    (w : World ReplayStore)
    → (continue r (λ _. k) w).0 ≡ ok tt
    → r ≡ ok tt
first_ok (ok a) k w h = refl
first_ok (err e) k w h = cc

names_endpoint :
    (env : Env) (now : ℕ) (nsid : String) (claims : AtProtoClaims) (w : World ReplayStore)
    → (enforce_standard_with_replay_store env now claims nsid w).0 ≡ ok tt
    → is_enforced env.enforce_lxm ≡ true
    → claims.lxm ≡ some nsid
unfolding enforce_standard_with_replay_store
names_endpoint env now nsid claims w h on =
    let k : checked_lxm env now claims nsid ≡ ok tt =
      first_ok (checked_lxm env now claims nsid) _ w h in
    lxm_ok claims.lxm nsid (rw on at k)

module _ (jose : Jose) (resolve_did : String → Result AuthError DidDocument) (env : Env)
    (service_did : Option String) (limits : Limits) (now : ℕ) (path : String) where
  -- The user of a request with this header.
  pub record IsAdmitted (authorization : Option String) (w : World Stores) (user : AuthUser)
      (w' : World Stores) : Type 0 where
    pub header : String
    pub token : String
    pub carried : authorization ≡ some header
    pub bearer : strip_prefix "Bearer " header ≡ some token
    pub genuine : IsGenuine jose resolve_did service_did now token user.claims
    pub fresh :
        IsFresh env (endpoint_nsid_from_path path) user.claims w.store.replay w'.store.replay
    pub identity : user.did ≡ or_iss user.claims.sub user.claims.iss

  enforced_Ensures :
      (claims : AtProtoClaims) (nsid : String) (w : World Stores)
      → Ensures
          (λ _ v. IsFresh env (some nsid) claims w.store.replay v.store.replay)
          (enforce_endpoint jose resolve_did env service_did limits now path claims nsid w)
  enforced_Ensures claims nsid w =
      by_result (on_replay (enforce_standard_with_replay_store env now claims nsid) w) refl refl
    where
      by_result :
          (r : Result AuthError (Unit {0}) × World Stores)
          → r.0
            ≡ (enforce_standard_with_replay_store env now claims nsid (focus w w.store.replay)).0
          → r.1.store.replay
            ≡ (enforce_standard_with_replay_store env now claims nsid
                (focus w w.store.replay)).1.store
          → Ensures
              (λ _ v. IsFresh env (some nsid) claims w.store.replay v.store.replay)
              (after_enforced jose resolve_did env service_did limits now path claims nsid r.0 r.1)
      by_result (ok a, v) e same =
          let k : (enforce_standard_with_replay_store env now claims nsid
                (focus w w.store.replay)).0
              ≡ ok tt =
            sym e in
          (
            names_endpoint env now nsid claims (focus w w.store.replay) k,
            λ on. subst (IsTaken claims w.store.replay) (sym same) (
                enforce_standard_with_replay_store-IsTaken env now claims nsid
                  (focus w w.store.replay) k on),
          )
      by_result (err x, v) e same =
          elim (Bool-cases (is_some (strip_prefix "blue.catbird.mls.ds." nsid))) [
            | inl t ↦ rw t tt
            | inr f ↦ rw f tt
          ]

  issuer_Ensures :
      (claims : AtProtoClaims) (o : Option String) (w : World Stores)
      → Ensures
          (λ _ v. IsFresh env o claims w.store.replay v.store.replay)
          (issuer_for_limits jose resolve_did env service_did limits now path claims o w)
  issuer_Ensures claims none w = tt
  issuer_Ensures claims (some nsid) w = enforced_Ensures claims nsid w

  within-Ensures :
      (b : Bool) (X : World Stores → Type 0) (w : World Stores)
      → X w
      → Ensures (λ _ v. X v) (within jose resolve_did env service_did limits now path b w)
  within-Ensures true X w x = x
  within-Ensures false X w x = tt

  abbrev LetIn : AtProtoClaims → World Stores → AuthUser → World Stores → Type 0
  LetIn claims w user v =
      IsFresh env (endpoint_nsid_from_path path) claims w.store.replay v.store.replay
      × ((user.claims ≡ claims) × (user.did ≡ or_iss claims.sub claims.iss))

  admit-Ensures :
      (claims : AtProtoClaims) (w : World Stores)
      → Ensures (LetIn claims w) (admit jose resolve_did env service_did limits now path claims w)
  admit-Ensures claims w =
      let F : World Stores → Type 0 =
        λ v. IsFresh env (endpoint_nsid_from_path path) claims w.store.replay v.store.replay in
      Ensures-bind
        (issuer_for_limits jose resolve_did env service_did limits now path claims
          (endpoint_nsid_from_path path))
        _ w (λ _ v. F v) (LetIn claims w) (issuer_Ensures claims (endpoint_nsid_from_path path) w)
        (λ issuer v f.
          Ensures-bind
            (within jose resolve_did env service_did limits now path
              (limits.check_rate_limit issuer))
            _ v (λ _ v'. F v') (LetIn claims w)
            (within-Ensures (limits.check_rate_limit issuer) F v f)
            (λ _ v' f'.
              Ensures-bind
                (within jose resolve_did env service_did limits now path
                  (limits.check_did_limit issuer path))
                _ v' (λ _ v''. F v'') (LetIn claims w)
                (within-Ensures (limits.check_did_limit issuer path) F v' f')
                (λ _ v'' f''. (f'', (refl, refl)))))

  admitted :
      (header token : String) (w : World Stores) (r : Result Failure AtProtoClaims)
      → strip_prefix "Bearer " header ≡ some token
      → verify_jwt jose resolve_did service_did now token ≡ r
      → Ensures
          (λ user v'. IsAdmitted (some header) w user v')
          (continue r (λ claims. admit jose resolve_did env service_did limits now path claims) w)
  admitted header token w (err e) b v = tt
  admitted header token w (ok claims) b v =
      weaker (admit jose resolve_did env service_did limits now path claims w)
        (admit-Ensures claims w)
    where
      build :
          (user : AuthUser) (v' : World Stores)
          → LetIn claims w user v'
          → IsAdmitted (some header) w user v'
      build user v' (fresh, (same, identity)) = record {
        header = header;
        token = token;
        carried = refl;
        bearer = b;
        genuine =
            verify_jwt-IsGenuine jose resolve_did service_did now token user.claims (rw same v);
        fresh = rw same fresh;
        identity = rw same identity;
      }

      weaker :
          (x : Result Failure AuthUser × World Stores)
          → Ensures (LetIn claims w) x
          → Ensures (λ user v'. IsAdmitted (some header) w user v') x
      weaker (ok user, v') h = build user v' h
      weaker (err e, v') h = tt

  token_Ensures :
      (header : String) (o : Option String) (w : World Stores)
      → strip_prefix "Bearer " header ≡ o
      → Ensures
          (λ user v'. IsAdmitted (some header) w user v')
          (on_token jose resolve_did env service_did limits now path o w)
  token_Ensures header none w e = tt
  token_Ensures header (some token) w e =
      admitted header token w (verify_jwt jose resolve_did service_did now token) e refl

  -- Whatever statements fail, a user who is let in sent a genuine token as bearer; on an endpoint under
  -- /xrpc/ the token names that endpoint where ENFORCE_LXM asks for it, and where ENFORCE_JTI does, its
  -- nonce was not in the table before this request and is in it after; and the user is the token's
  -- `sub`, or its issuer where it has none.
  pub from_request_parts-IsAdmitted :
      (authorization : Option String) (w : World Stores)
      → Ensures
          (λ user w'. IsAdmitted authorization w user w')
          (from_request_parts jose resolve_did env service_did limits now path authorization w)
  unfolding from_request_parts
  from_request_parts-IsAdmitted none w = tt
  from_request_parts-IsAdmitted (some header) w =
      token_Ensures header (strip_prefix "Bearer " header) w refl
