-- ===== src/Federation/Resolver/Cached.antt =====
-- What the cache does to the answers.
use mls_ds.Prelude.{
  ℕ, ◌≤◌, String, ◌≡◌, refl, subst, ap, sym, ◌∙◌, Bool, true, false, Option, none, some, List, find,
  where_, length, ◌-◌, str_eq, Bool-cases, inl, inr, if◌then◌else◌, arith,
}
use mls_ds.Prelude.Int.{is_alive, ℤ, pos, negsuc, ◌+ℤ◌, leb_ℤ}
use mathlib.Core.Option
use mls_ds.Prelude.Results.{OnOk, Result, ok, err}
use mls_ds.Sql.{World, NoFails, next, query-NoFails}
use mls_ds.Did.{canonical_did}
use mls_ds.Federation.Url.{FederationError, database, endpoint_not_found}
use mls_ds.Federation.Repo.{DsEndpoint, Json, Web, and_then, resolve_from_repo}
use mls_ds.Federation.Resolver.{
  DsResolver, EndpointRow, Endpoints, upsert_endpoint, row_for, endpoint_of, is_hit, is_alive,
  is_kept, get_cached, cache_endpoint, fallback, on_repo, on_cached, resolve, cleanup_expired,
  self_endpoint,
}
use mls_ds.Federation.Resolver.Rows.{find-upsert_endpoint, find-where_}
use mls_ds.Federation.Resolver.Vetted.{Found, found}

module _ (json : Json) (ds : DsResolver) where
  suites : (o : Option (List String)) → and_then (and_then o json.to_string) json.from_str ≡ o
  suites none = refl
  suites (some l) = let (text, to, from) = json.from_str-to_string l in rw (to, from) refl

  endpoint_of-row_for :
      (ttl : ℤ) (now : ℕ) (e : DsEndpoint) → endpoint_of json (row_for json ttl now e) ≡ e
  endpoint_of-row_for ttl now e = rw (suites e.supported_cipher_suites) refl

  module _ (now : ℕ) (web : Web json) (did : String) where
    -- The answer and the table after it, by what the table says of the DID.
    abbrev after_fallback :
        Option String → Endpoints → Result FederationError DsEndpoint × Endpoints
    after_fallback (some default) s =
        (ok (record { did = did; endpoint = default; supported_cipher_suites = none }), s)
    after_fallback none s = (err (endpoint_not_found did), s)

    abbrev after_repo :
        Result FederationError DsEndpoint
        → Endpoints
        → Result FederationError DsEndpoint × Endpoints
    unfolding upsert_endpoint
    after_repo (ok e) s = (ok e, upsert_endpoint (row_for json ds.cache_ttl_secs now e) s)
    after_repo (err x) s = after_fallback ds.default_ds s

    abbrev after_row :
        Option EndpointRow → Endpoints → Result FederationError DsEndpoint × Endpoints
    unfolding after_repo
    after_row (some r) s = (ok (endpoint_of json r), s)
    after_row none s = after_repo (resolve_from_repo json web did) s

    abbrev after_resolve : Endpoints → Result FederationError DsEndpoint × Endpoints
    unfolding after_row find
    after_resolve s =
        if str_eq (canonical_did did) (canonical_did ds.self_did)
        then (ok (self_endpoint json ds now web), s)
        else after_row (find (is_hit json now did) s) s

    abbrev Gives :
        Result FederationError DsEndpoint × World Endpoints
        → Result FederationError DsEndpoint × Endpoints
        → (ℕ → Bool)
        → Type 0
    Gives r x fails = (r.0 ≡ x.0) × (r.1.store ≡ x.1) × (r.1.fails ≡ fails)

    fallback-Gives :
        (d : Option String) (w : World Endpoints)
        → Gives (fallback json ds now web did d w) (after_fallback d w.store) w.fails
    fallback-Gives none w = (refl, refl, refl)
    fallback-Gives (some default) w = (refl, refl, refl)

    repo-Gives :
        (r : Result FederationError DsEndpoint) (w : World Endpoints)
        → NoFails w
        → Gives (on_repo json ds now web did r w) (after_repo r w.store) w.fails
    unfolding after_repo cache_endpoint
    repo-Gives (err x) w h = fallback-Gives ds.default_ds w
    repo-Gives (ok e) w h =
        rw
          (query-NoFails database
            (λ s. (tt, upsert_endpoint (row_for json ds.cache_ttl_secs now e) s)) w h)
          (refl, refl, refl)

    row-Gives :
        (o : Option EndpointRow) (w : World Endpoints)
        → NoFails w
        → Gives
            (on_cached json ds now web did (Option.map (endpoint_of json) o) w)
            (after_row o w.store)
            w.fails
    unfolding after_row
    row-Gives none w h = repo-Gives (resolve_from_repo json web did) w h
    row-Gives (some r) w h = (refl, refl, refl)

    resolve-Gives :
        (w : World Endpoints)
        → NoFails w
        → Gives (resolve json ds now web did w) (after_resolve w.store) w.fails
    unfolding resolve get_cached after_resolve
    resolve-Gives w h = elim (Bool-cases (str_eq (canonical_did did) (canonical_did ds.self_did))) [
      | inl t ↦ rw t (refl, refl, refl)
      | inr f ↦ rw f (
          rw
            (query-NoFails database
              (λ s. (Option.map (endpoint_of json) (find (is_hit json now did) s), s)) w h)
            (row-Gives (find (is_hit json now did) w.store) (next w w.store) h))
    ]

  row_of-found :
      (now now' : ℕ) (did : String) (e : DsEndpoint) (s : Endpoints)
      → e.did ≡ did
      → is_alive now' (pos now +ℤ ds.cache_ttl_secs) ≡ true
      → find (is_hit json now' did) (upsert_endpoint (row_for json ds.cache_ttl_secs now e) s)
        ≡ some (row_for json ds.cache_ttl_secs now e)
  row_of-found now now' did e s same alive = rw (← same) (
      find-upsert_endpoint (row_for json ds.cache_ttl_secs now e) (λ r. is_alive now' r.expires_at)
        s alive)

  -- What the repository of another DS's user says at a cache miss is the answer to a call for the same
  -- user on the table that the first call left, before the entry's lifetime ends and whatever the
  -- network is by then, where no statement fails.
  pub resolve-resolve :
      (now now' : ℕ) (web web' : Web json) (did : String) (e : DsEndpoint) (w : World Endpoints)
      → NoFails w
      → str_eq (canonical_did did) (canonical_did ds.self_did) ≡ false
      → find (is_hit json now did) w.store ≡ none
      → resolve_from_repo json web did ≡ ok e
      → is_alive now' (pos now +ℤ ds.cache_ttl_secs) ≡ true
      → let first = resolve json ds now web did w in
        (first.0 ≡ ok e) × ((resolve json ds now' web' did first.1).0 ≡ ok e)
  unfolding after_resolve after_row after_repo
  resolve-resolve now now' web web' did e w h other miss repo alive =
      let g = resolve-Gives now web did w h in
      let first = resolve json ds now web did w in
      let f : OnOk {E = FederationError} (Found json web did) (ok e) =
        subst (OnOk {E = FederationError} (Found json web did)) repo (found json web did) in
      let x : after_resolve now web did w.store
          ≡ (ok e, upsert_endpoint (row_for json ds.cache_ttl_secs now e) w.store) =
        rw (other, miss, repo) refl in
      let stored : first.1.store ≡ upsert_endpoint (row_for json ds.cache_ttl_secs now e) w.store =
        g.1 ∙ ap (λ p. p.1) x in
      let fine : NoFails first.1 = λ n. ap (λ fails. fails n) g.2 ∙ h n in
      let again = resolve-Gives now' web' did first.1 fine in
      let hit : find (is_hit json now' did) first.1.store
          ≡ some (row_for json ds.cache_ttl_secs now e) =
        rw stored (row_of-found now now' did e w.store f.0 alive) in
      (
        g.0 ∙ ap (λ p. p.0) x,
        again.0 ∙ rw (other, hit) (ap ok (endpoint_of-row_for ds.cache_ttl_secs now e)),
      )

  after_row-cong :
      (now : ℕ) (web : Web json) (did : String) (o : Option EndpointRow) (s t : Endpoints)
      → (after_row now web did o s).0 ≡ (after_row now web did o t).0
  unfolding after_row after_repo
  after_row-cong now web did (some r) s t = refl
  after_row-cong now web did none s t = on_result (resolve_from_repo json web did)
    where
      on_default :
          (d : Option String)
          → (after_fallback now web did d s).0 ≡ (after_fallback now web did d t).0
      on_default none = refl
      on_default (some x) = refl

      on_result :
          (r : Result FederationError DsEndpoint)
          → (after_repo now web did r s).0 ≡ (after_repo now web did r t).0
      on_result (ok e) = refl
      on_result (err e) = on_default ds.default_ds

  alive-kept :
      (now now' : ℕ) (x : ℤ) → now ≤ now' → is_alive now' x ≡ true → leb_ℤ (pos now) x ≡ true
  alive-kept now now' (pos n) le h = ground arith
  alive-kept now now' (negsuc n) le h = ground arith

  hit-kept :
      (now now' : ℕ) (did : String) (r : EndpointRow)
      → now ≤ now'
      → is_hit json now' did r ≡ true
      → is_kept now r ≡ true
  hit-kept now now' did r le h = elim (Bool-cases (str_eq r.did did)) [
    | inl t ↦
        let k : is_alive now' r.expires_at ≡ true = (rw t at h) in
        alive-kept now now' r.expires_at le k
    | inr f ↦ let n : false ≡ true = (rw f at h) in cc
  ]

  -- To delete the expired rows changes no answer at that time or later, where no statement fails.
  pub resolve-cleanup_expired :
      (now now' : ℕ) (web : Web json) (did : String) (w : World Endpoints)
      → NoFails w
      → now ≤ now'
      → (resolve json ds now' web did (cleanup_expired now w).1).0
        ≡ (resolve json ds now' web did w).0
  unfolding after_resolve cleanup_expired
  resolve-cleanup_expired now now' web did w h le =
      let cleaned = (cleanup_expired now w).1 in
      let c : cleaned ≡ next w (where_ (is_kept now) w.store) =
        rw
          (query-NoFails database
            (λ s. (length s - length (where_ (is_kept now) s), where_ (is_kept now) s)) w h)
          refl in
      let a = resolve-Gives now' web did (next w (where_ (is_kept now) w.store)) h in
      let b = resolve-Gives now' web did w h in rw c (a.0 ∙ (same ∙ sym b.0))
    where
      same :
          (after_resolve now' web did (where_ (is_kept now) w.store)).0
          ≡ (after_resolve now' web did w.store).0
      same = elim (Bool-cases (str_eq (canonical_did did) (canonical_did ds.self_did))) [
        | inl t ↦ rw t refl
        | inr f ↦
            rw
              (
                f,
                find-where_ (is_hit json now' did) (is_kept now) w.store
                    (λ r k. hit-kept now now' did r le k),
              )
              (after_row-cong now' web did (find (is_hit json now' did) w.store) _ _)
      ]
