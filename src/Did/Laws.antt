-- ===== src/Did/Laws.antt =====
-- Canonical DIDs and the round trip between device DIDs and their parts.
use Prim.Native.Char.{Char, code}
use Prim.Native.String.{[], ◌∷◌, ◌++◌}
use text.Mathlib.TextEquality.{Char-path}
use text.Mathlib.TextLemmas.{nil-append, cons-append}
use mls_ds.Prelude.{
  String, ◌≡◌, refl, ap, ◌∙◌, ◌⊎◌, inl, inr, true, false, none, some, arith, ◌==◌, ==_iff, eq_refl,
  Bool-cases, Option, Option-cases,
}
use mls_ds.Prelude.Results.{ok}
use mls_ds.Did.{
  canonical_did, dids_equivalent, split_once, is_empty, parse_device_did, construct_device_did,
}

-- No character of the text is `#`.
abbrev pub HasNoHash : String → Type 0
HasNoHash [] = Unit {0}
HasNoHash (c ∷ s) = ((code c == b'#') ≡ false) × HasNoHash s

abbrev code_hash : Char
code_hash = "#"

pub canonical_did-HasNoHash : (s : String) → HasNoHash (canonical_did s)
unfolding canonical_did
canonical_did-HasNoHash [] = tt
canonical_did-HasNoHash (c ∷ s) = elim (Bool-cases (code c == b'#')) [
  | inl h ↦ rw h tt
  | inr h ↦ rw h (h, canonical_did-HasNoHash s)
]

pub canonical_did_fixed : (s : String) → HasNoHash s → canonical_did s ≡ s
unfolding canonical_did
canonical_did_fixed [] h = refl
canonical_did_fixed (c ∷ s) h = rw (h.0, canonical_did_fixed s h.1)

-- Canonicalizing twice changes nothing more.
pub canonical_did_idem : (s : String) → canonical_did (canonical_did s) ≡ canonical_did s
canonical_did_idem s = canonical_did_fixed _ (canonical_did-HasNoHash s)

-- What `format!("{}#{}", u, d)` starts with, character by character.
hash-append : (d : String) → "#" ++ d ≡ code_hash ∷ d
hash-append d = cons-append _ [] d ∙ ap (◌∷◌ _) (nil-append d)

-- A fragment, and what it holds, is dropped.
canonical_did-append : (u d : String) → canonical_did (u ++ ("#" ++ d)) ≡ canonical_did u
unfolding canonical_did
canonical_did-append [] d = rw (nil-append, hash-append) refl
canonical_did-append (c ∷ u) d =
    rw (cons-append c u ("#" ++ d)) (ground (arith, canonical_did-append u d))

split_once-append : (u d : String) → HasNoHash u → split_once (u ++ ("#" ++ d)) ≡ some (u, d)
unfolding split_once
split_once-append [] d h = rw (nil-append, hash-append) refl
split_once-append (c ∷ u) d h =
    rw (cons-append c u ("#" ++ d)) (rw (h.0, split_once-append u d h.1))

split_once-none : (s : String) → HasNoHash s → split_once s ≡ none
unfolding split_once
split_once-none [] h = refl
split_once-none (c ∷ s) h = rw (h.0, split_once-none s h.1)

split_once-hit :
    (c : Char) (s u d : String)
    → (code c == b'#') ≡ true
    → ◌≡◌ {A = Option (String × String)} (some ([], s)) (some (u, d))
    → (c ∷ s ≡ u ++ ("#" ++ d)) × HasNoHash u
split_once-hit c s u d hit e =
    let eu : [] ≡ u = cc in
    let ed : s ≡ d = cc in
    let ec : c ≡ code_hash = Char-path c code_hash ((==_iff _ _).0 hit) in
    rw (← eu, ← ed, ec, nil-append, hash-append) (refl, tt)

-- A hit of `split_once` cuts the text at its first `#`.
pub split_once-some :
    (s u d : String) → split_once s ≡ some (u, d) → (s ≡ u ++ ("#" ++ d)) × HasNoHash u
unfolding split_once
split_once-some [] u d h = absurd (cc)
split_once-some (c ∷ s) u d h = elim (Bool-cases (code c == b'#')) [
  | inl hit ↦ split_once-hit c s u d hit (rw hit at h)
  | inr miss ↦ elim (Option-cases (split_once s)) [
    | inl stop ↦ absurd (ground arith)
    | inr ((v, e), found) ↦
        let eu : c ∷ v ≡ u = ground arith in
        let ed : e ≡ d = ground arith in
        let ih = split_once-some s v e found in
        rw (← eu, ← ed, cons-append) (ap (◌∷◌ c) ih.0, (miss, ih.1))
  ]
]

is_empty→nil : (s : String) → is_empty s ≡ true → s ≡ []
unfolding is_empty
is_empty→nil [] h = refl
is_empty→nil (c ∷ s) h = absurd (cc)

none→HasNoHash : (s : String) → split_once s ≡ none → HasNoHash s
unfolding split_once
none→HasNoHash [] h = tt
none→HasNoHash (c ∷ s) h = elim (Bool-cases (code c == b'#')) [
  | inl hit ↦ absurd (ground arith)
  | inr miss ↦ (miss, none→HasNoHash s (ground arith))
]

-- A device DID built from a user DID without `#` and a device id has these parts again, where
-- the user DID is not empty or the device id is.
pub parse_device_did-construct_device_did :
    (u d : String)
    → HasNoHash u
    → (is_empty u ≡ false) ⊎ (is_empty d ≡ true)
    → parse_device_did (construct_device_did u d) ≡ ok (u, d)
unfolding parse_device_did construct_device_did
parse_device_did-construct_device_did u d clean full = elim (Bool-cases (is_empty d)) [
  | inl bare ↦ ground (arith, split_once-none u clean, is_empty→nil d bare)
  | inr device ↦ ground (arith, split_once-append u d clean)
]

-- Conversely, the parts of an accepted DID rebuild it, and its user part is its canonical DID.
pub parse_device_did-ok :
    (s u d : String)
    → parse_device_did s ≡ ok (u, d)
    → (construct_device_did u d ≡ s) × (canonical_did s ≡ u)
unfolding parse_device_did construct_device_did
parse_device_did-ok s u d h = elim (Option-cases (split_once s)) [
  | inl bare ↦
      let eu : s ≡ u = ground arith in
      let ed : "" ≡ d = ground arith in
      rw (← eu, ← ed) (refl, canonical_did_fixed s (none→HasNoHash s bare))
  | inr ((v, e), found) ↦
      let (eq, clean) = split_once-some s v e found in
      ground (arith, eq, canonical_did-append v e, canonical_did_fixed v clean)
]

-- The DIDs of any two devices of a user, and the user's own, are equivalent.
pub dids_equivalent-construct_device_did :
    (u d e : String) → dids_equivalent (construct_device_did u d) (construct_device_did u e) ≡ true
unfolding dids_equivalent construct_device_did
dids_equivalent-construct_device_did u d e =
    ground (arith, canonical_did-append u d, canonical_did-append u e, eq_refl (canonical_did u))
