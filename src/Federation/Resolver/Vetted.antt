-- ===== src/Federation/Resolver/Vetted.antt =====
-- Where an answer of the resolver comes from.
use mls_ds.Prelude.{
  Any, ℕ, String, ◌≡◌, refl, Bool, subst, ◌⊎◌, inl, inr, Option, none, some, List, [], ◌∷◌, All,
  All-map, All-find, where_, where_-All, find, str_eq, Bool-cases, not,
}
use mathlib.Core.Option
use mls_ds.Sql.{World, query, pure, After, After-bind, After-query, After-mono, After-world}
use mls_ds.Did.{canonical_did}
use mls_ds.Federation.Resolver.{
  DsResolver, EndpointRow, Endpoints, upsert_endpoint, row_for, endpoint_of, is_hit, get_cached,
  cache_endpoint, fallback, on_repo, on_cached, look_up, resolve, invalidate, cleanup_expired,
  is_kept,
}
use mls_ds.Federation.Resolver.Rows.{upsert_endpoint-All}
use mls_ds.Prelude.Results.{OnOk, OnOk-bind, OnOk-then, Result, ok, err, ok_or}
use mls_ds.Federation.Url.{
  Net, database, FederationError, validate_remote_url, http_failed, pds_status, invalid_json,
  resolution_failed, no_value, no_delivery_service,
}
use mls_ds.Federation.Url.Public.{IsSafe, validate_remote_url-IsSafe}
use mls_ds.Federation.Repo.{
  DsEndpoint, Json, Web, resolve_from_repo, resolve_did_to_pds, body_of, profile_url, text_at,
}

module _ (json : Json) (web : Web json) where
  abbrev pub Found : String → DsEndpoint → Type 0
  Found did e = (e.did ≡ did) × IsSafe web.net e.endpoint

  pub found : (did : String) → OnOk (Found did) (resolve_from_repo json web did)
  unfolding resolve_from_repo
  found did = OnOk-bind (Found did) (resolve_did_to_pds json web did) _ (λ pds _.
      OnOk-bind (Found did)
        (body_of json did http_failed pds_status invalid_json
          (web.send (profile_url json web pds did)))
        _
        (λ body _.
          OnOk-bind (Found did) (ok_or (json.get body "value") (resolution_failed did no_value)) _
            (λ value _.
              OnOk-bind (Found did)
                (ok_or (text_at json value "deliveryService")
                  (resolution_failed did no_delivery_service))
                _
                (λ endpoint _.
                  OnOk-then (Found did) (validate_remote_url web.net endpoint) _
                    (λ passed. (refl, (validate_remote_url-IsSafe web.net endpoint).0 passed))))))

-- A URL was tested on one of these networks.
abbrev pub IsVetted : List Net → String → Type 0
IsVetted nets endpoint = Any (λ net. IsSafe net endpoint) nets

abbrev pub AllVetted : List Net → Endpoints → Type 0
AllVetted nets rs = All (λ r. IsVetted nets r.endpoint) rs

-- An answer is this DS, the default one, or one whose URL was tested.
abbrev pub IsSourced : DsResolver → List Net → DsEndpoint → Type 0
IsSourced ds nets e =
    (e.endpoint ≡ ds.self_endpoint) ⊎ ((ds.default_ds ≡ some e.endpoint) ⊎ IsVetted nets e.endpoint)

older :
    (net : Net) (nets : List Net) (rs : Endpoints) → AllVetted nets rs → AllVetted (net ∷ nets) rs
older net nets rs h = All-map _ _ rs (λ r k. inr k) h

module _ (json : Json) (ds : DsResolver) (now : ℕ) (web : Web json) (nets : List Net) where
  abbrev Good : DsEndpoint → World Endpoints → Type 0
  Good e w = IsSourced ds (web.net ∷ nets) e × AllVetted (web.net ∷ nets) w.store

  abbrev Kept : FederationError → World Endpoints → Type 0
  Kept e w = AllVetted (web.net ∷ nets) w.store

  fallback-Good :
      (did : String) (d : Option String) (w : World Endpoints)
      → ds.default_ds ≡ d
      → AllVetted (web.net ∷ nets) w.store
      → After Good Kept (fallback json ds now web did d w)
  fallback-Good did none w e h = h
  fallback-Good did (some default) w e h = (inr (inl e), h)

  on_repo-Good :
      (did : String) (r : Result FederationError DsEndpoint) (w : World Endpoints)
      → OnOk (Found json web did) r
      → AllVetted (web.net ∷ nets) w.store
      → After Good Kept (on_repo json ds now web did r w)
  unfolding cache_endpoint
  on_repo-Good did (err e) w f h = fallback-Good did ds.default_ds w refl h
  on_repo-Good did (ok e) w f h =
      let new = row_for json ds.cache_ttl_secs now e in
      After-bind (cache_endpoint json ds.cache_ttl_secs now e) (λ _. pure e) w
        (λ _ v. AllVetted (web.net ∷ nets) v.store) Good Kept
        (After-query database (λ s. some (tt, upsert_endpoint new s)) w
          (λ _ v. AllVetted (web.net ∷ nets) v.store) Kept h
          (λ a s same.
            let es : upsert_endpoint new w.store ≡ s = cc in
            rw (← es) (
              upsert_endpoint-All (λ r. IsVetted (web.net ∷ nets) r.endpoint) new w.store (inl f.1)
                h)))
        (λ a v k. (inr (inr (inl f.1)), k))

  on_cached-Good :
      (did : String) (c : Option DsEndpoint) (w : World Endpoints)
      → ((e : DsEndpoint) → c ≡ some e → IsVetted (web.net ∷ nets) e.endpoint)
      → AllVetted (web.net ∷ nets) w.store
      → After Good Kept (on_cached json ds now web did c w)
  on_cached-Good did none w f h =
      on_repo-Good did (resolve_from_repo json web did) w (found json web did) h
  on_cached-Good did (some e) w f h = (inr (inr (f e refl)), h)

  cached-IsVetted :
      (o : Option EndpointRow) (e : DsEndpoint)
      → ((r : EndpointRow) → o ≡ some r → IsVetted (web.net ∷ nets) r.endpoint)
      → Option.map (endpoint_of json) o ≡ some e
      → IsVetted (web.net ∷ nets) e.endpoint
  cached-IsVetted none e f h = cc
  cached-IsVetted (some r) e f h =
      let same : endpoint_of json r ≡ e = cc in
      subst (λ x. IsVetted (web.net ∷ nets) x.endpoint) same (f r refl)

  look_up-Good :
      (did : String) (w : World Endpoints)
      → AllVetted (web.net ∷ nets) w.store
      → After Good Kept (look_up json ds now web did w)
  unfolding get_cached
  look_up-Good did w h =
      After-bind (get_cached json now did) (on_cached json ds now web did) w
        (λ c v.
          ((e : DsEndpoint) → c ≡ some e → IsVetted (web.net ∷ nets) e.endpoint)
          × AllVetted (web.net ∷ nets) v.store)
        Good Kept
        (After-query database
          (λ s. some (Option.map (endpoint_of json) (find (is_hit json now did) s), s)) w _ Kept h
          (λ a s same.
            let ea : Option.map (endpoint_of json) (find (is_hit json now did) w.store) ≡ a = cc in
            let es : w.store ≡ s = cc in
            rw (← ea, ← es)
              (
                λ e q.
                    cached-IsVetted (find (is_hit json now did) w.store) e
                      (λ r hit.
                        All-find (λ x. IsVetted (web.net ∷ nets) x.endpoint) (is_hit json now did)
                          w.store r h hit)
                      q,
                h,
              )))
        (λ c v k. on_cached-Good did c v k.0 k.1)

  resolve-Good :
      (did : String) (w : World Endpoints)
      → AllVetted nets w.store
      → After Good Kept (resolve json ds now web did w)
  unfolding resolve
  resolve-Good did w h =
      elim (Bool-cases (str_eq (canonical_did did) (canonical_did ds.self_did))) [
        | inl t ↦ rw t (inl refl, older web.net nets w.store h)
        | inr f ↦ rw f (look_up-Good did w (older web.net nets w.store h))
      ]

-- What the service asks of the resolver, at a time and on a network.
pub data ResolverEvent : Type 0 where
  resolved invalidated : String → ResolverEvent
  cleaned : ResolverEvent

module _ (json : Json) where
  -- The networks of the events, the latest first.
  unfoldable pub nets_of : List Net → List (ℕ × Web json × ResolverEvent) → List Net
  nets_of nets [] = nets
  nets_of nets ((now, web, e) ∷ es) = nets_of (web.net ∷ nets) es

module _ (json : Json) (ds : DsResolver) where
  unfoldable pub apply : World Endpoints → ℕ × Web json × ResolverEvent → World Endpoints
  apply w (now, web, resolved did) = (resolve json ds now web did w).1
  apply w (now, web, invalidated did) = (invalidate did w).1
  apply w (now, web, cleaned) = (cleanup_expired now w).1

  unfoldable pub apply_all : World Endpoints → List (ℕ × Web json × ResolverEvent) → World Endpoints
  apply_all w [] = w
  apply_all w (e ∷ es) = apply_all (apply w e) es

  filtered-Vetted :
      {A : Type 0} (nets : List Net) (p : EndpointRow → Bool) (g : Endpoints → A)
      (w : World Endpoints)
      → AllVetted nets w.store
      → AllVetted nets (query database (λ s. some (g s, where_ p s)) w).1.store
  filtered-Vetted nets p g w h =
      After-world _ (λ v. AllVetted nets v.store)
        (After-query database (λ s. some (g s, where_ p s)) w (λ _ v. AllVetted nets v.store)
          (λ _ v. AllVetted nets v.store) h
          (λ a s same. let es : where_ p w.store ≡ s = cc in rw (← es) (where_-All _ p w.store h)))

  apply-Vetted :
      (nets : List Net) (now : ℕ) (web : Web json) (e : ResolverEvent) (w : World Endpoints)
      → AllVetted nets w.store
      → AllVetted (web.net ∷ nets) (apply w (now, web, e)).store
  unfolding apply invalidate cleanup_expired
  apply-Vetted nets now web (resolved did) w h =
      After-world _ (λ v. AllVetted (web.net ∷ nets) v.store)
        (After-mono (resolve json ds now web did w) _ _ _ _ (λ e v k. k.1) (λ e v k. k)
          (resolve-Good json ds now web nets did w h))
  apply-Vetted nets now web (invalidated did) w h =
      filtered-Vetted (web.net ∷ nets) (λ r. not (str_eq r.did did)) (λ _. tt) w
        (older web.net nets w.store h)
  apply-Vetted nets now web cleaned w h =
      filtered-Vetted (web.net ∷ nets) (is_kept now) _ w (older web.net nets w.store h)

  run-Vetted :
      (nets : List Net) (es : List (ℕ × Web json × ResolverEvent)) (w : World Endpoints)
      → AllVetted nets w.store
      → AllVetted (nets_of json nets es) (apply_all w es).store
  unfolding apply_all nets_of
  run-Vetted nets [] w h = h
  run-Vetted nets ((now, web, e) ∷ es) w h =
      run-Vetted (web.net ∷ nets) es (apply w (now, web, e)) (apply-Vetted nets now web e w h)

  -- After any calls on an empty table, whatever statements fail, an endpoint that `resolve` answers is
  -- this DS's own, the default one, or a URL that passed every test on the network of this call or of
  -- one of those calls.
  pub resolve-IsSourced :
      (es : List (ℕ × Web json × ResolverEvent)) (now : ℕ) (web : Web json) (did : String)
      (w : World Endpoints)
      → w.store ≡ []
      → OnOk
          (IsSourced ds (web.net ∷ nets_of json [] es))
          (resolve json ds now web did (apply_all w es)).0
  resolve-IsSourced es now web did w h = answered _ (
      resolve-Good json ds now web (nets_of json [] es) did (apply_all w es)
        (run-Vetted [] es w (rw h tt)))
    where
      answered :
          (r : Result FederationError DsEndpoint × World Endpoints)
          → After
              (Good json ds now web (nets_of json [] es))
              (Kept json ds now web (nets_of json [] es))
              r
          → OnOk (IsSourced ds (web.net ∷ nets_of json [] es)) r.0
      answered (ok e, v) k = k.0
      answered (err e, v) k = tt
