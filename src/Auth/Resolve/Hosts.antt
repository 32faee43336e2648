-- ===== src/Auth/Resolve/Hosts.antt =====
-- The hosts that pass the tests.
use Prim.Native.Char.{code}
use Prim.Native.String as Text
use Prim.Native.String.{◌++◌}
use text.Mathlib.TextLemmas.{nil-append, cons-append}
use mls_ds.Prelude.{
  ==_iff, ◌&&◌, All, ℕ, String, ◌≡◌, refl, sym, ap, ◌∙◌, Bool, true, false, not, ◌||◌, ◌==◌, Option,
  none, some, List, [], ◌∷◌, Bool-cases, inl, inr,
}
use mls_ds.Prelude.Strings.{split_at, on_split}
use mls_ds.Prelude.Results.{Result, ok, err}
use mls_ds.Federation.Address.{
  IpAddr, v4, v6, is_private_ip, is_loopback_v4, is_private_v4, is_unspecified_v4, is_link_local_v4,
  is_multicast_v4, is_only_last, is_unique_local_v6, is_multicast_v6, is_unicast_link_local_v6,
}
use mls_ds.Federation.Url.{host_is_allowlisted}
use mls_ds.Federation.Url.Public.{IsPublic, IsListed, host_is_allowlisted-IsUnder}
use mls_ds.Auth.Types.{AuthError}
use mls_ds.Auth.Resolve.{
  DidNet, refuse_if, ip_is_disallowed, check_addresses, in_allowlist, first_part, on_lookup,
  named_or_literal, validate_resolved_host_is_public,
}

swapped : (a b c d e : Bool) → (a || b || c || d || e) ≡ (b || a || e || c || d)
swapped true true c d e = refl
swapped true false c d e = refl
swapped false true c d e = refl
swapped false false c d true = any_true c d
  where
    any_true : (c d : Bool) → (c || d || true) ≡ true
    any_true true d = refl
    any_true false true = refl
    any_true false false = refl
swapped false false c d false = no_last c d
  where
    no_last : (c d : Bool) → (c || d || false) ≡ (c || d)
    no_last true d = refl
    no_last false true = refl
    no_last false false = refl

moved : (a b c d e : Bool) → (a || b || c || d || e) ≡ (b || c || a || d || e)
moved true true c d e = refl
moved true false true d e = refl
moved true false false d e = refl
moved false b c d e = still b c d e
  where
    still : (b c d e : Bool) → (b || c || d || e) ≡ (b || c || false || d || e)
    still true c d e = refl
    still false true d e = refl
    still false false d e = refl

-- auth.rs and resolver.rs refuse the same addresses.
pub ip_is_disallowed-is_private_ip : (ip : IpAddr) → ip_is_disallowed ip ≡ is_private_ip ip
unfolding ip_is_disallowed is_private_ip
ip_is_disallowed-is_private_ip (v4 ip) =
    swapped (is_private_v4 ip) (is_loopback_v4 ip) (is_link_local_v4 ip) (is_multicast_v4 ip)
      (is_unspecified_v4 ip)
ip_is_disallowed-is_private_ip (v6 ip) =
    moved (is_unique_local_v6 ip) (is_only_last 1 ip) (is_only_last 0 ip) (is_multicast_v6 ip)
      (is_unicast_link_local_v6 ip)

-- The text has no character of this number.
abbrev pub lacks : ℕ → String → Bool
lacks n Text.[] = true
lacks n (Text.◌∷◌ c s) = not (code c == n) && lacks n s

-- Nothing, or a text that starts with a character of this number.
abbrev pub StartsAt : ℕ → String → Type 0
StartsAt n Text.[] = Unit
StartsAt n (Text.◌∷◌ c s) = code c ≡ n

-- The first part of a text that is split stands in front of the rest, and ends where the first
-- separator stands.
pub split_at-first_part :
    (n : ℕ) (s : String)
    → (rest : String) × (s ≡ first_part (split_at n s) ++ rest)
      × (lacks n (first_part (split_at n s)) ≡ true)
      × StartsAt n rest
unfolding split_at
split_at-first_part n Text.[] = ("", sym (nil-append ""), refl, tt)
split_at-first_part n (Text.◌∷◌ c s) =
    go (code c == n) refl (split_at n s) (split_at-first_part n s)
  where
    go :
        (b : Bool)
        → (code c == n) ≡ b
        → (parts : List String)
        → ((rest : String) × (s ≡ first_part parts ++ rest)
            × (lacks n (first_part parts) ≡ true)
            × StartsAt n rest)
        → (rest : String) × (Text.◌∷◌ c s ≡ first_part (on_split b c parts) ++ rest)
          × (lacks n (first_part (on_split b c parts)) ≡ true)
          × StartsAt n rest
    go true here parts h =
        (Text.◌∷◌ c s, sym (nil-append (Text.◌∷◌ c s)), refl, (==_iff (code c) n).0 here)
    go false here [] (rest, e, free, stop) =
        (rest, ap (Text.◌∷◌ c) e ∙ sym (cons-append c "" rest), rw here refl, stop)
    go false here (part ∷ parts) (rest, e, free, stop) =
        (rest, ap (Text.◌∷◌ c) e ∙ sym (cons-append c part rest), rw (here, free) refl, stop)

refused_unless : (b : Bool) (e : AuthError) → refuse_if b e ≡ ok tt → b ≡ false
refused_unless true e h = cc
refused_unless false e h = refl

positive : (b : Bool) → not b ≡ false → b ≡ true
positive true h = refl
positive false h = cc

ip_is_disallowed-IsPublic : (ip : IpAddr) → ip_is_disallowed ip ≡ false → IsPublic ip
ip_is_disallowed-IsPublic ip h = sym (ip_is_disallowed-is_private_ip ip) ∙ h

-- The host is a public address, or a name that stands for public addresses alone.
abbrev pub ArePublic : Result String (List IpAddr) → Type 0
ArePublic (err e) = ⊥
ArePublic (ok []) = ⊥
ArePublic (ok (ip ∷ ips)) = All IsPublic (ip ∷ ips)

abbrev pub IsReached : DidNet → String → ℕ → Option IpAddr → Type 0
IsReached net host port (some ip) = IsPublic ip
IsReached net host port none = ArePublic (net.lookup_host host port)

check_addresses-IsPublic :
    (b : Bool) (ips : List IpAddr) → check_addresses b ips ≡ ok tt → All IsPublic ips
unfolding check_addresses
check_addresses-IsPublic b [] h = tt
check_addresses-IsPublic b (ip ∷ ips) h = elim (Bool-cases (ip_is_disallowed ip)) [
  | inl t ↦ let n : err _ ≡ ok tt = (rw t at h) in cc
  | inr f ↦
      let k : check_addresses true ips ≡ ok tt = (rw f at h) in
      (ip_is_disallowed-IsPublic ip f, check_addresses-IsPublic true ips k)
]

on_lookup-ArePublic :
    (net : DidNet) (r : Result String (List IpAddr)) → on_lookup net r ≡ ok tt → ArePublic r
unfolding check_addresses
on_lookup-ArePublic net (err e) h = cc
on_lookup-ArePublic net (ok []) h = cc
on_lookup-ArePublic net (ok (ip ∷ ips)) h = check_addresses-IsPublic false (ip ∷ ips) h

pub validate_resolved_host_is_public-IsReached :
    (net : DidNet) (host : String) (port : ℕ)
    → validate_resolved_host_is_public net host port ≡ ok tt
    → IsReached net host port (net.parse_ip host)
unfolding validate_resolved_host_is_public
validate_resolved_host_is_public-IsReached net host port h = reached (net.parse_ip host) h
  where
    reached :
        (o : Option IpAddr) → named_or_literal net host port o ≡ ok tt → IsReached net host port o
    reached (some ip) k = ip_is_disallowed-IsPublic ip (refused_unless (ip_is_disallowed ip) _ k)
    reached none k = on_lookup-ArePublic net (net.lookup_host host port) k

pub in_allowlist-IsListed :
    (reason host : String) (o : Option (List String))
    → in_allowlist reason host o ≡ ok tt
    → IsListed host o
in_allowlist-IsListed reason host none h = tt
in_allowlist-IsListed reason host (some l) h =
    (host_is_allowlisted-IsUnder host l).0 (
      positive (host_is_allowlisted host l) (refused_unless (not (host_is_allowlisted host l)) _ h))
