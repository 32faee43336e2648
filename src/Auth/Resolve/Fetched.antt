-- ===== src/Auth/Resolve/Fetched.antt =====
-- Where a document that the resolver answers comes from.
use Prim.Native.String.{◌++◌}
use Prim.Native.Char.{char}
use Prim.Native.String as Text
use text.Mathlib.TextLemmas.{append_assoc, nil-append, cons-append}
use mls_ds.Prelude.{
  ℕ, ◌+◌, ◌<◌, String, ◌≡◌, refl, sym, ap, subst, ◌∙◌, Bool, true, false, not, ◌⊎◌, inl, inr,
  Option, none, some, List, [], ◌∷◌, Any, All, All-map, where_, where_-All, find, str_eq, eq_iff,
  ltb, ltb→lt, Bool-cases, both, if◌then◌else◌,
}
use mls_ds.Prelude.Strings.{split_at}
use mls_ds.Prelude.Results.{Result, ok, err, ok_or, map_err, ◌>>◌, OnOk, OnOk-bind, OnOk-then}
use mls_ds.Federation.Endpoint.{strip_prefix, slashes}
use mls_ds.Federation.Url.Public.{IsListed}
use mls_ds.Federation.Repo.{is_success}
use mls_ds.Auth.Types.{AuthError, invalid_did, DidDocument}
use mls_ds.Auth.Resolve.{
  DidNet, Response, CachedDidDoc, in_allowlist, first_part, validate_resolved_host_is_public,
  is_disallowed_host, refuse_if, failed, document_of, resolve_plc_did, resolve_web_did, is_some,
  by_method, is_live, remembered, on_cached, resolve_did,
}
use mls_ds.Auth.Resolve.Hosts.{
  lacks, StartsAt, split_at-first_part, IsReached, validate_resolved_host_is_public-IsReached,
  in_allowlist-IsListed,
}

-- The host and the path of a DID's document.
abbrev pub IsPlace : String → String → String → Type 0
IsPlace did host path =
    ((rest : String) × (strip_prefix "did:plc:" did ≡ some rest)
      × (host ≡ "plc.directory")
      × (path ≡ "/" ++ did))
    ⊎ ((rest : String) × (strip_prefix "did:web:" did ≡ some rest)
        × (host ++ path ≡ slashes rest ++ "/.well-known/did.json"))

-- The document is what the client gets for the DID with success from an HTTPS URL of a listed host that
-- is public. Where the host redirects, the client follows, and nothing is said of the hosts after that.
pub record IsFetched (net : DidNet) (allow : Option (List String)) (did : String)
    (doc : DidDocument) : Type 0 where
  pub host : String
  pub path : String
  pub response : Response
  pub place : IsPlace did host path
  -- The host is all that stands before the first slash.
  pub ends : (lacks b'/' host ≡ true) × StartsAt b'/' path
  pub answered : net.get ("https://" ++ (host ++ path)) ≡ ok response
  pub succeeded : is_success response.status ≡ true
  pub parsed : response.body ≡ ok doc
  pub listed : IsListed host allow
  pub reached : IsReached net host 443 (net.parse_ip host)

abbrev IsAnswer : Result String Response → DidDocument → Type 0
IsAnswer r doc =
    (response : Response) × (r ≡ ok response)
    × (is_success response.status ≡ true)
    × (response.body ≡ ok doc)

slash_after : (rest : String) → StartsAt b'/' rest → StartsAt b'/' (rest ++ "/.well-known/did.json")
slash_after Text.[] h = subst (StartsAt b'/') (sym (nil-append "/.well-known/did.json")) refl
slash_after (Text.◌∷◌ c s) h = rw (cons-append c s "/.well-known/did.json") h

slash_first : (s : String) → StartsAt b'/' ("/" ++ s)
slash_first s = rw (cons-append (char b'/' tt) "" s) refl

document_of-IsAnswer :
    (net : DidNet) (server : String) (r : Result String Response)
    → OnOk (IsAnswer r) (document_of net server r)
document_of-IsAnswer net server (err e) = tt
document_of-IsAnswer net server (ok response) =
    succeeds (is_success response.status) refl response.body refl
  where
    succeeds :
        (b : Bool)
        → is_success response.status ≡ b
        → (body : Result String DidDocument) → response.body ≡ body
        → OnOk (IsAnswer (ok response)) (
            refuse_if (not b) (failed (server ++ " returned status"))
            >> map_err (λ e. failed ("Failed to parse DID document: " ++ e)) body)
    succeeds true s (ok doc) p = (response, refl, s, p)
    succeeds true s (err e) p = tt
    succeeds false s body p = tt

module _ (net : DidNet) (allow : Option (List String)) (did : String) where
  -- What is answered at a host after its tests.
  document_of-IsFetched :
      (reason server host path url : String)
      → IsPlace did host path
      → (lacks b'/' host ≡ true) × StartsAt b'/' path
      → url ≡ "https://" ++ (host ++ path)
      → in_allowlist reason host allow ≡ ok tt
      → validate_resolved_host_is_public net host 443 ≡ ok tt
      → OnOk (IsFetched net allow did) (document_of net server (net.get url))
  document_of-IsFetched reason server host path url place ends same listed reached =
      weaken (document_of net server (net.get url)) (document_of-IsAnswer net server (net.get url))
    where
      weaken :
          (r : Result AuthError DidDocument)
          → OnOk (IsAnswer (net.get url)) r
          → OnOk (IsFetched net allow did) r
      weaken (err e) h = tt
      weaken (ok doc) (response, answered, succeeded, parsed) = record {
        host = host;
        path = path;
        response = response;
        place = place;
        ends = ends;
        answered = ap net.get (sym same) ∙ answered;
        succeeded = succeeded;
        parsed = parsed;
        listed = in_allowlist-IsListed reason host allow listed;
        reached = validate_resolved_host_is_public-IsReached net host 443 reached;
      }

  prefixed :
      (o : Option String) (e : AuthError) (rest : String) → ok_or o e ≡ ok rest → o ≡ some rest
  prefixed none e rest h = cc
  prefixed (some s) e rest h = cc

  resolve_plc_did-IsFetched : OnOk (IsFetched net allow did) (resolve_plc_did net allow did)
  unfolding resolve_plc_did
  resolve_plc_did-IsFetched = OnOk-bind _ (ok_or (strip_prefix "did:plc:" did) _) _ (λ plc_id found.
      OnOk-then _ (in_allowlist _ "plc.directory" allow) _ (λ listed.
        OnOk-then _ (validate_resolved_host_is_public net "plc.directory" 443) _ (λ reached.
          document_of-IsFetched _ "PLC directory" "plc.directory" ("/" ++ did)
            ("https://plc.directory/" ++ did)
            (inl (plc_id, prefixed (strip_prefix "did:plc:" did) _ plc_id found, refl, refl))
            (refl, slash_first did)
            (append_assoc "https://plc.directory" "/" did
              ∙ append_assoc "https://" "plc.directory" ("/" ++ did))
            listed reached)))

  resolve_web_did-IsFetched : OnOk (IsFetched net allow did) (resolve_web_did net allow did)
  unfolding resolve_web_did
  resolve_web_did-IsFetched = OnOk-bind _ (ok_or (strip_prefix "did:web:" did) _) _ (λ rest found.
      let domain = slashes rest in
      let host = first_part (split_at b'/' domain) in
      let tail = split_at-first_part b'/' domain in
      let place : host ++ (tail.0 ++ "/.well-known/did.json") ≡ domain ++ "/.well-known/did.json" =
        sym (append_assoc host tail.0 "/.well-known/did.json")
        ∙ ap (λ s. s ++ "/.well-known/did.json") (sym tail.1) in
      OnOk-then _ (refuse_if (is_disallowed_host net host) _) _ (λ _.
        OnOk-then _ (in_allowlist _ host allow) _ (λ listed.
          OnOk-then _ (validate_resolved_host_is_public net host 443) _ (λ reached.
            document_of-IsFetched _ "Web server" host (tail.0 ++ "/.well-known/did.json")
              ("https://" ++ (domain ++ "/.well-known/did.json"))
              (inr (rest, prefixed (strip_prefix "did:web:" did) _ rest found, place))
              (tail.2, slash_after tail.0 tail.3) (ap (λ s. "https://" ++ s) (sym place)) listed
              reached))))

  either-IsFetched :
      (b : Bool) (r q : Result AuthError DidDocument)
      → OnOk (IsFetched net allow did) r
      → OnOk (IsFetched net allow did) q
      → OnOk (IsFetched net allow did) (if b then r else q)
  either-IsFetched true r q h k = h
  either-IsFetched false r q h k = k

  by_method-IsFetched : OnOk (IsFetched net allow did) (by_method net allow did)
  by_method-IsFetched =
      either-IsFetched (is_some (strip_prefix "did:plc:" did)) (resolve_plc_did net allow did) _
        resolve_plc_did-IsFetched
        (either-IsFetched (is_some (strip_prefix "did:web:" did)) (resolve_web_did net allow did)
          (err (invalid_did ("Unsupported DID method: " ++ did))) resolve_web_did-IsFetched tt)

-- The calls' times and networks, the latest first.
abbrev pub Calls : Type 0
Calls = List (ℕ × DidNet)

-- A DID is asked for, at a time and on a network; or the cache drops entries.
pub data CacheEvent : Type 0 where
  resolved : ℕ → DidNet → String → CacheEvent
  evicted : (CachedDidDoc → Bool) → CacheEvent

unfoldable pub calls_of : Calls → List CacheEvent → Calls
calls_of calls [] = calls
calls_of calls (resolved now net did ∷ es) = calls_of ((now, net) ∷ calls) es
calls_of calls (evicted stays ∷ es) = calls_of calls es

module _ (allow : Option (List String)) (ttl : ℕ) where
  -- The document of an entry was fetched for its DID in the call that made the entry.
  abbrev pub IsKept : Calls → CachedDidDoc → Type 0
  IsKept calls c = Any (λ p. (p.0 ≡ c.cached_at) × IsFetched p.1 allow c.did c.doc) calls

  -- A document fetched now, or within the lifetime in some call.
  abbrev pub IsRecent : ℕ → Calls → String → DidDocument → Type 0
  IsRecent now calls did doc =
      Any (λ p. ((p.0 ≡ now) ⊎ (now < p.0 + ttl)) × IsFetched p.1 allow did doc) calls

  is_alive-IsRecent :
      (now : ℕ) (c : CachedDidDoc) (calls : Calls)
      → now < c.cached_at + ttl
      → IsKept calls c
      → IsRecent now calls c.did c.doc
  is_alive-IsRecent now c [] live x = elim x [ ]
  is_alive-IsRecent now c (p ∷ calls) live (inl (same, f)) = inl (inr (rw same live), f)
  is_alive-IsRecent now c (p ∷ calls) live (inr k) = inr (is_alive-IsRecent now c calls live k)

  find-IsRecent :
      (now : ℕ) (did : String) (calls : Calls) (cs : List CachedDidDoc) (c : CachedDidDoc)
      → All (IsKept calls) cs
      → find (is_live ttl now did) cs ≡ some c
      → IsRecent now calls did c.doc
  unfolding find
  find-IsRecent now did calls [] c h e = cc
  find-IsRecent now did calls (x ∷ cs) c (h, hs) e = elim (Bool-cases (is_live ttl now did x)) [
    | inl t ↦
        let k : some x ≡ some c = (rw t at e) in
        let same : x ≡ c = cc in rw (← same) (of_live x t h)
    | inr f ↦
        let k : find (is_live ttl now did) cs ≡ some c = (rw f at e) in
        find-IsRecent now did calls cs c hs k
  ]
    where
      of_live :
          (x : CachedDidDoc)
          → is_live ttl now did x ≡ true
          → IsKept calls x
          → IsRecent now calls did x.doc
      of_live x t h =
          let (mine, live) = both (str_eq x.did did) (ltb now (x.cached_at + ttl)) t in
          let same : x.did ≡ did = (eq_iff x.did did).0 mine in
          subst (λ d. IsRecent now calls d x.doc) same
            (is_alive-IsRecent now x calls (ltb→lt now (x.cached_at + ttl) live) h)

  older :
      (now : ℕ) (net : DidNet) (calls : Calls) (cs : List CachedDidDoc)
      → All (IsKept calls) cs
      → All (IsKept ((now, net) ∷ calls)) cs
  older now net calls cs h = All-map _ _ cs (λ c k. inr k) h

  abbrev Good : ℕ → Calls → String → Result AuthError DidDocument × List CachedDidDoc → Type 0
  Good now calls did r = OnOk (IsRecent now calls did) r.0 × All (IsKept calls) r.1

  module _ (net : DidNet) (now : ℕ) (calls : Calls) (did : String) (cs : List CachedDidDoc) where
    remembered-Good :
        (r : Result AuthError DidDocument)
        → OnOk (IsFetched net allow did) r
        → All (IsKept ((now, net) ∷ calls)) cs
        → Good now ((now, net) ∷ calls) did (remembered net allow ttl now did r cs)
    remembered-Good (err e) f h = (tt, h)
    remembered-Good (ok doc) f h =
        (inl (inl refl, f), (inl (refl, f), where_-All _ (λ c. not (str_eq c.did did)) cs h))

    on_cached-Good :
        (o : Option CachedDidDoc)
        → find (is_live ttl now did) cs ≡ o
        → All (IsKept calls) cs
        → Good now ((now, net) ∷ calls) did (on_cached net allow ttl now did o cs)
    on_cached-Good none e h =
        remembered-Good (by_method net allow did) (by_method-IsFetched net allow did)
          (older now net calls cs h)
    on_cached-Good (some c) e h =
        (inr (find-IsRecent now did calls cs c h e), older now net calls cs h)

    resolve_did-Good :
        All (IsKept calls) cs
        → Good now ((now, net) ∷ calls) did (resolve_did net allow ttl now did cs)
    unfolding resolve_did
    resolve_did-Good h = elim (Bool-cases (is_some (strip_prefix "did:" did))) [
      | inl t ↦ rw t (on_cached-Good (find (is_live ttl now did) cs) refl h)
      | inr f ↦ rw f (tt, older now net calls cs h)
    ]

  unfoldable pub apply : CacheEvent → List CachedDidDoc → List CachedDidDoc
  apply (resolved now net did) cs = (resolve_did net allow ttl now did cs).1
  apply (evicted stays) cs = where_ stays cs

  unfoldable pub apply_all : List CachedDidDoc → List CacheEvent → List CachedDidDoc
  apply_all cs [] = cs
  apply_all cs (e ∷ es) = apply_all (apply e cs) es

  apply_all-Kept :
      (calls : Calls) (es : List CacheEvent) (cs : List CachedDidDoc)
      → All (IsKept calls) cs
      → All (IsKept (calls_of calls es)) (apply_all cs es)
  unfolding apply apply_all calls_of
  apply_all-Kept calls [] cs h = h
  apply_all-Kept calls (resolved now net did ∷ es) cs h =
      apply_all-Kept ((now, net) ∷ calls) es _ (resolve_did-Good net now calls did cs h).1
  apply_all-Kept calls (evicted stays ∷ es) cs h =
      apply_all-Kept calls es _ (where_-All _ stays cs h)

  -- After any calls and evictions on an empty cache, a document that `resolve_did` answers was fetched
  -- for this DID from an HTTPS URL that the DID names, of which the host, all that stands before the
  -- first slash, was listed and public when it was asked (a redirect of that host is followed without
  -- these tests): in this call, or in an earlier one whose entry is still alive.
  pub resolve_did-IsRecent :
      (es : List CacheEvent) (now : ℕ) (net : DidNet) (did : String)
      → OnOk
          (IsRecent now ((now, net) ∷ calls_of [] es) did)
          (resolve_did net allow ttl now did (apply_all [] es)).0
  resolve_did-IsRecent es now net did =
      (resolve_did-Good net now (calls_of [] es) did (apply_all [] es)
        (apply_all-Kept [] es [] tt)).0
