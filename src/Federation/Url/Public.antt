-- ===== src/Federation/Url/Public.antt =====
-- What a URL that passes the tests is.
use Prim.Native.String.{◌++◌}
use mls_ds.Prelude.{
  Any, String, ◌≡◌, refl, ap, ◌⊎◌, ◌↔◌, inl, inr, Bool, true, false, not, ◌&&◌, ◌||◌, Option, none,
  some, List, [], ◌∷◌, All, exists, str_eq, eq_iff, Bool-cases, Option-cases,
}
use mls_ds.Prelude.Strings.{to_ascii_lowercase, ends_with, ends_with-append, ends_with→append}
use mls_ds.Prelude.Results.{Result, ok, err, ◌>>=◌, ◌>>◌}
use mls_ds.Federation.Address.{IpAddr, is_private_ip}
use mls_ds.Federation.Url.{
  Url, Lookup, timed_out, failed, addresses, Net, FederationError, Checked, ensure, refused,
  blocked_host, scheme_refused, allow_insecure_http, host_allowlist, host_is_allowlisted,
  is_blocked_name, scheme_is_allowed, parsed, literal_is_public, in_allowlist, check_addresses,
  on_lookup, check_host, on_host, named_or_literal, unwrap_or, validate_endpoint_url_with_policy,
  validate_endpoint_url, validate_resolved_host_is_public, validate_remote_url,
}

-- A host is an entry of the allowlist, or a subdomain of one.
abbrev pub IsUnder : String → String → Type 0
IsUnder host entry = (host ≡ entry) ⊎ ((sub : String) × (host ≡ sub ++ ("." ++ entry)))

abbrev pub IsListed : String → Option (List String) → Type 0
IsListed host none = Unit
IsListed host (some entries) = Any (IsUnder (to_ascii_lowercase host)) entries

abbrev pub IsPublic : IpAddr → Type 0
IsPublic ip = is_private_ip ip ≡ false

-- The lookup gave an address at least, and none that is private.
abbrev pub ArePublic : Lookup → Type 0
ArePublic timed_out = ⊥
ArePublic (failed reason) = ⊥
ArePublic (addresses []) = ⊥
ArePublic (addresses (ip ∷ ips)) = All IsPublic (ip ∷ ips)

-- An address as the host, or a name that stands for addresses.
abbrev pub IsReached : Net → Url → String → Option IpAddr → Type 0
IsReached net url host (some ip) = IsPublic ip
IsReached net url host none =
    ArePublic (net.lookup_host host (unwrap_or 443 url.port_or_known_default))

abbrev pub HasScheme : Net → Url → Type 0
HasScheme net url =
    (url.scheme ≡ "https")
    ⊎ ((url.scheme ≡ "http") × (allow_insecure_http net.insecure_http ≡ true))

-- What stands behind a URL.
pub record IsSafe (net : Net) (url_str : String) : Type 0 where
  pub url : Url
  pub host : String
  pub parses : net.parse url_str ≡ ok url
  pub has_host : url.host_str ≡ some host
  pub scheme : HasScheme net url
  pub name : is_blocked_name (to_ascii_lowercase host) ≡ false
  pub listed : IsListed host (host_allowlist net.outbound_hosts)
  pub reached : IsReached net url host (net.parse_ip host)

ensure→true : (b : Bool) (e : FederationError) → ensure b e ≡ ok tt → b ≡ true
ensure→true true e h = refl
ensure→true false e h = cc

then_ok :
    {B : Type 0} (m : Checked) (k : Result FederationError B) (b : B)
    → (m >> k) ≡ ok b
    → (m ≡ ok tt) × (k ≡ ok b)
then_ok (ok a) k b h = (refl, h)
then_ok (err e) k b h = cc

ensured :
    {B : Type 0} (t : Bool) (e : FederationError) (k : Result FederationError B) (b : B)
    → (ensure t e >> k) ≡ ok b
    → (t ≡ true) × (k ≡ ok b)
ensured true e k b h = (refl, h)
ensured false e k b h = cc

refuted : (b : Bool) → not b ≡ true → b ≡ false
refuted true h = cc
refuted false h = refl

or_true : (a b : Bool) → (a || b) ≡ true → (a ≡ true) ⊎ (b ≡ true)
or_true true b h = inl refl
or_true false b h = inr h

or-right : (a b : Bool) → b ≡ true → (a || b) ≡ true
or-right true b h = refl
or-right false b h = h

and_true : (a b : Bool) → (a && b) ≡ true → (a ≡ true) × (b ≡ true)
and_true true b h = (refl, h)
and_true false b h = cc

under :
    (host entry : String)
    → (str_eq host entry || ends_with host ("." ++ entry)) ≡ true
    → IsUnder host entry
under host entry h = elim (or_true (str_eq host entry) (ends_with host ("." ++ entry)) h) [
  | inl e ↦ inl ((eq_iff host entry).0 e)
  | inr e ↦ inr (ends_with→append host ("." ++ entry) e)
]

under_test :
    (host entry : String)
    → IsUnder host entry
    → (str_eq host entry || ends_with host ("." ++ entry)) ≡ true
under_test host entry (inl e) = rw ((eq_iff host entry).1 e) refl
under_test host entry (inr (sub, e)) =
    or-right (str_eq host entry) (ends_with host ("." ++ entry))
      (rw e (ends_with-append sub ("." ++ entry)))

listed :
    (host : String) (l : List String)
    → host_is_allowlisted host l ≡ true
    → Any (IsUnder (to_ascii_lowercase host)) l
unfolding host_is_allowlisted exists
listed host [] h = cc
listed host (entry ∷ entries) h = elim (or_true _ (host_is_allowlisted host entries) h) [
  | inl e ↦ inl (under (to_ascii_lowercase host) entry e)
  | inr e ↦ inr (listed host entries e)
]

listed_test :
    (host : String) (l : List String)
    → Any (IsUnder (to_ascii_lowercase host)) l
    → host_is_allowlisted host l ≡ true
unfolding host_is_allowlisted exists
listed_test host [] e = absurd e
listed_test host (entry ∷ entries) (inl e) = rw (under_test (to_ascii_lowercase host) entry e) refl
listed_test host (entry ∷ entries) (inr e) =
    or-right _ (host_is_allowlisted host entries) (listed_test host entries e)

-- A host is let through by an allowlist exactly where, in lower case, it is one of the entries or ends
-- in a dot and one of them.
pub host_is_allowlisted-IsUnder :
    (host : String) (allowlist : List String)
    → (host_is_allowlisted host allowlist ≡ true)
      ↔ Any (IsUnder (to_ascii_lowercase host)) allowlist
host_is_allowlisted-IsUnder host allowlist = (listed host allowlist, listed_test host allowlist)

checked_addrs :
    (host : String) (b : Bool) (ips : List IpAddr)
    → check_addresses host b ips ≡ ok tt
    → All IsPublic ips
unfolding check_addresses
checked_addrs host b [] h = tt
checked_addrs host b (ip ∷ ips) h = elim (Bool-cases (is_private_ip ip)) [
  | inl t ↦ let n : err _ ≡ ok tt = (rw t at h) in cc
  | inr f ↦
      let k : check_addresses host true ips ≡ ok tt = (rw f at h) in
      (f, checked_addrs host true ips k)
]

public_test :
    (host : String) (ips : List IpAddr) → All IsPublic ips → check_addresses host true ips ≡ ok tt
unfolding check_addresses
public_test host [] h = refl
public_test host (ip ∷ ips) (h, hs) = rw h (public_test host ips hs)

looked_up : (host : String) (l : Lookup) → on_lookup host l ≡ ok tt → ArePublic l
unfolding check_addresses
looked_up host timed_out h = cc
looked_up host (failed reason) h = cc
looked_up host (addresses []) h = cc
looked_up host (addresses (ip ∷ ips)) h = checked_addrs host false (ip ∷ ips) h

lookup_test : (host : String) (l : Lookup) → ArePublic l → on_lookup host l ≡ ok tt
unfolding check_addresses
lookup_test host timed_out h = absurd h
lookup_test host (failed reason) h = absurd h
lookup_test host (addresses []) h = absurd h
lookup_test host (addresses (ip ∷ ips)) (h, hs) = rw h (public_test host ips hs)

schemed :
    (net : Net) (url : Url)
    → scheme_is_allowed net (allow_insecure_http net.insecure_http) url.scheme ≡ true
    → HasScheme net url
schemed net url h = elim (or_true (str_eq url.scheme "https") _ h) [
  | inl e ↦ inl ((eq_iff url.scheme "https").0 e)
  | inr e ↦
      let both = and_true (str_eq url.scheme "http") _ e in
      inr ((eq_iff url.scheme "http").0 both.0, both.1)
]

scheme_test :
    (net : Net) (url : Url)
    → HasScheme net url
    → scheme_is_allowed net (allow_insecure_http net.insecure_http) url.scheme ≡ true
scheme_test net url (inl e) = rw ((eq_iff url.scheme "https").1 e) refl
scheme_test net url (inr (e, a)) =
    or-right (str_eq url.scheme "https") _ (rw ((eq_iff url.scheme "http").1 e, a) refl)

allowed : (host : String) (l : Option (List String)) → in_allowlist host l ≡ ok tt → IsListed host l
allowed host none h = tt
allowed host (some l) h = listed host l (ensure→true (host_is_allowlisted host l) _ h)

allowed_test :
    (host : String) (l : Option (List String)) → IsListed host l → in_allowlist host l ≡ ok tt
allowed_test host none h = refl
allowed_test host (some l) h = rw (listed_test host l h) refl

module _ (net : Net) where
  abbrev scheme_test_of : Url → Bool
  scheme_test_of url = scheme_is_allowed net (allow_insecure_http net.insecure_http) url.scheme

  parsed_parts :
      (r : Result String Url) (url : Url)
      → (parsed net r >>= λ u.
          ensure (scheme_test_of u) (scheme_refused u.scheme)
          >> (check_host net u.host_str >> ok u))
        ≡ ok url
      → (r ≡ ok url) × HasScheme net url × (check_host net url.host_str ≡ ok tt)
  parsed_parts (err e) url h = cc
  parsed_parts (ok u) url h =
      let x =
        ensured (scheme_test_of u) (scheme_refused u.scheme) (check_host net u.host_str >> ok u) url
          h in
      let y = then_ok (check_host net u.host_str) (ok u) url x.1 in
      let e : u ≡ url = cc in (ap ok e, rw (← e) (schemed net u x.0), rw (← e) y.0)

  endpoint_parts :
      (s : String) (url : Url)
      → validate_endpoint_url net s ≡ ok url
      → (net.parse s ≡ ok url) × HasScheme net url × (check_host net url.host_str ≡ ok tt)
  unfolding validate_endpoint_url validate_endpoint_url_with_policy
  endpoint_parts s url h = parsed_parts (net.parse s) url h

  checked_host :
      (host : String)
      → check_host net (some host) ≡ ok tt
      → (is_blocked_name (to_ascii_lowercase host) ≡ false)
        × IsListed host (host_allowlist net.outbound_hosts)
  checked_host host h =
      let name = is_blocked_name (to_ascii_lowercase host) in
      let x =
        ensured (not name) (refused (blocked_host host))
          (literal_is_public (net.parse_ip host)
            >> in_allowlist host (host_allowlist net.outbound_hosts))
          tt h in
      let y =
        then_ok (literal_is_public (net.parse_ip host))
          (in_allowlist host (host_allowlist net.outbound_hosts)) tt x.1 in
      (refuted name x.0, allowed host (host_allowlist net.outbound_hosts) y.1)

  reached :
      (url : Url) (host : String) (ip : Option IpAddr)
      → named_or_literal net url host ip ≡ ok tt
      → IsReached net url host ip
  reached url host (some ip) h =
      refuted (is_private_ip ip) (ensure→true (not (is_private_ip ip)) _ h)
  reached url host none h = looked_up host _ h

  vouched :
      (s : String) (r : Result FederationError Url)
      → validate_endpoint_url net s ≡ r
      → (r >>= λ url. validate_resolved_host_is_public net url) ≡ ok tt
      → IsSafe net s
  unfolding validate_resolved_host_is_public
  vouched s (err e) p h = cc
  vouched s (ok url) p h = elim (Option-cases url.host_str) [
    | inl n ↦ let k : on_host net url none ≡ ok tt = (rw n at h) in cc
    | inr (host, hs) ↦
        let parts = endpoint_parts s url p in
        let k : on_host net url (some host) ≡ ok tt = (rw hs at h) in
        let c : check_host net (some host) ≡ ok tt = (rw hs at parts.2) in
        let named = checked_host host c in
        record {
          url = url;
          host = host;
          parses = parts.0;
          has_host = hs;
          scheme = parts.1;
          name = named.0;
          listed = named.1;
          reached = reached url host (net.parse_ip host) k;
        }
  ]

  literal_test :
      (url : Url) (host : String) (ip : Option IpAddr)
      → IsReached net url host ip
      → literal_is_public ip ≡ ok tt
  literal_test url host none h = refl
  literal_test url host (some ip) h = rw h refl

  reached_test :
      (url : Url) (host : String) (ip : Option IpAddr)
      → IsReached net url host ip
      → named_or_literal net url host ip ≡ ok tt
  reached_test url host none h = lookup_test host _ h
  reached_test url host (some ip) h = literal_test url host (some ip) h

  safe_test : (s : String) → IsSafe net s → validate_remote_url net s ≡ ok tt
  unfolding validate_remote_url validate_endpoint_url validate_endpoint_url_with_policy
      validate_resolved_host_is_public
  safe_test s safe =
      rw
        (
          safe.parses,
          scheme_test net safe.url safe.scheme,
          safe.has_host,
          safe.name,
          literal_test safe.url safe.host (net.parse_ip safe.host) safe.reached,
          allowed_test safe.host (host_allowlist net.outbound_hosts) safe.listed,
          reached_test safe.url safe.host (net.parse_ip safe.host) safe.reached,
        )
        refl

  -- A URL passes exactly where it parses, with the scheme https or, where the environment allows it,
  -- http; its host is neither a blocked name nor outside the allowlist; and the host is an address that
  -- is not private, or the lookup gave one address at least and no private one.
  pub validate_remote_url-IsSafe : (s : String) → (validate_remote_url net s ≡ ok tt) ↔ IsSafe net s
  unfolding validate_remote_url
  validate_remote_url-IsSafe s = (λ h. vouched s (validate_endpoint_url net s) refl h, safe_test s)
