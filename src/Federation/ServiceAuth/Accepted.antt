-- ===== src/Federation/ServiceAuth/Accepted.antt =====
-- A signed request at the DS that it is for: service_auth.rs against auth.rs.
use Prim.Native.Char.{Char, char, code}
use Prim.Native.String as Text
use Prim.Native.String.{◌++◌}
use text.Mathlib.TextLemmas.{nil-append, cons-append}
use mls_ds.Prelude.{
  ℕ, ◌+◌, ◌≤◌, String, ◌≡◌, refl, ap, ◌∙◌, arith, ◌↔◌, Bool, true, false, not, ◌&&◌, none, some,
  List, [], ◌∷◌, ◌==◌, eq_refl, leb→le, le→leb, both,
}
use mls_ds.Prelude.Int.{pos, leb_ℤ}
use mls_ds.Prelude.Strings.{split_at}
use mls_ds.Prelude.Results.{Result, ok, err, map_err, ◌>>◌}
use mls_ds.Wire.{as_bytes}
use mls_ds.Did.{canonical_did}
use mls_ds.Auth.Types.{
  AuthError, token_expired, AtProtoClaims, JwtHeader, VerificationMethod, DidDocument,
}
use mls_ds.Auth.Token.{Jose, unless, select_verification_method, p256_key, verify_jwt}
use mls_ds.Federation.ServiceAuth.{
  Jwt, ServiceAuthClaims, ServiceAuthClient, es256, alg_name, auth_failed, claims_for, header_of,
  sign_request,
}

-- The text has no character of this number.
abbrev pub lacks : ℕ → String → Bool
lacks n Text.[] = true
lacks n (Text.◌∷◌ c s) = not (code c == n) && lacks n s

negative : (b : Bool) → not b ≡ true → b ≡ false
negative true h = cc
negative false h = refl

split_at-append :
    (n : ℕ) (a : String) (c : Char) (b : String)
    → lacks n a ≡ true
    → (code c == n) ≡ true
    → split_at n (a ++ Text.◌∷◌ c b) ≡ a ∷ split_at n b
unfolding split_at
split_at-append n Text.[] c b h e = rw (nil-append (Text.◌∷◌ c b)) (rw e refl)
split_at-append n (Text.◌∷◌ d a) c b h e =
    let (first, rest) = both (not (code d == n)) (lacks n a) h in
    rw (cons-append d a (Text.◌∷◌ c b))
      (rw (negative (code d == n) first) (rw (split_at-append n a c b rest e) refl))

split_at-lacks : (n : ℕ) (a : String) → lacks n a ≡ true → split_at n a ≡ a ∷ []
unfolding split_at
split_at-lacks n Text.[] h = refl
split_at-lacks n (Text.◌∷◌ d a) h =
    let (first, rest) = both (not (code d == n)) (lacks n a) h in
    rw (negative (code d == n) first) (rw (split_at-lacks n a rest) refl)

-- The claims as the other DS reads them.
abbrev pub received : ServiceAuthClaims → AtProtoClaims
received c = record {
  iss = c.iss;
  aud = c.aud;
  exp = c.exp;
  iat = some c.iat;
  sub = none;
  lxm = some c.lxm;
  jti = some c.jti;
}

-- What RFC 7515 and 7519 make of a header and claims: three parts without a dot, which read back, the
-- last a signature of the first two that the key verifies.
pub record IsEncoded (jose : Jose) (key : jose.p256.Key) (h : JwtHeader) (c : ServiceAuthClaims)
    (token : String) : Type 0 where
  pub header_part : String
  pub payload_part : String
  pub signature_part : String
  pub joined : token ≡ header_part ++ ("." ++ (payload_part ++ ("." ++ signature_part)))
  pub dotless :
      (lacks b'.' header_part ≡ true)
      × (lacks b'.' payload_part ≡ true)
      × (lacks b'.' signature_part ≡ true)
  pub header_json : List ℕ
  pub payload_json : List ℕ
  pub sig_bytes : List ℕ
  pub sig : jose.p256.Signature
  pub header_decoded : jose.decode header_part ≡ ok header_json
  pub payload_decoded : jose.decode payload_part ≡ ok payload_json
  pub sig_decoded : jose.decode signature_part ≡ ok sig_bytes
  pub header_read : jose.header header_json ≡ ok h
  pub claims_read : jose.claims payload_json ≡ ok (received c)
  pub sig_read : jose.p256.from_slice sig_bytes ≡ some sig
  pub verified : jose.p256.verify key (as_bytes (header_part ++ ("." ++ payload_part))) sig ≡ true

abbrev dot : Char
dot = char b'.' tt

dot_append : (s : String) → "." ++ s ≡ Text.◌∷◌ dot s
dot_append s = cons-append dot "" s ∙ ap (Text.◌∷◌ dot) (nil-append s)

parts :
    (h p s : String)
    → (lacks b'.' h ≡ true) × (lacks b'.' p ≡ true) × (lacks b'.' s ≡ true)
    → split_at b'.' (h ++ ("." ++ (p ++ ("." ++ s)))) ≡ h ∷ p ∷ s ∷ []
parts h p s (lh, lp, ls) = rw (dot_append s) (
    rw (dot_append (p ++ Text.◌∷◌ dot s)) (
      rw (split_at-append b'.' h dot (p ++ Text.◌∷◌ dot s) lh refl)
        (rw (split_at-append b'.' p dot s lp refl) (rw (split_at-lacks b'.' s ls) refl))))

module _ (jose : Jose) (resolve : String → Result AuthError DidDocument) where
  checked :
      (key : jose.p256.Key) (h : JwtHeader) (c : ServiceAuthClaims) (token : String)
      (later until : ℕ) (doc : DidDocument) (vm : VerificationMethod)
      → IsEncoded jose key h c token
      → h.alg ≡ "ES256"
      → c.exp ≡ pos until
      → resolve (canonical_did c.iss) ≡ ok doc
      → select_verification_method doc h.kid ≡ ok vm
      → p256_key jose vm ≡ ok key
      → verify_jwt jose resolve (some c.aud) later token
        ≡ (unless (not (leb_ℤ (pos later) (pos until))) token_expired >> ok (received c))
  unfolding verify_jwt
  checked key h c token later until doc vm enc es ex found method known =
      rw (enc.joined, parts enc.header_part enc.payload_part enc.signature_part enc.dotless)
        (rw (enc.header_decoded, enc.payload_decoded, enc.header_read, enc.claims_read)
          (rw (ex, eq_refl c.aud, es, found, method, known)
            (rw (enc.sig_decoded) (rw (enc.sig_read, enc.verified) refl))))

in_time :
    (later until : ℕ) (c : AtProtoClaims)
    → ((unless (not (leb_ℤ (pos later) (pos until))) token_expired >> ok c) ≡ ok c)
      ↔ (later ≤ until)
in_time later until c = go (leb_ℤ (pos later) (pos until)) refl
  where
    go :
        (b : Bool)
        → leb_ℤ (pos later) (pos until) ≡ b
        → ((unless (not b) token_expired >> ok c) ≡ ok c) ↔ (later ≤ until)
    go true e = (
      λ _. let le : later + 0 ≤ until + 0 = leb→le (later + 0) (until + 0) e in omega arith,
      λ _. refl,
    )
    go false e = (
      λ h. absurd (cc),
      λ le.
          let t : leb_ℤ (pos later) (pos until) ≡ true =
            le→leb (later + 0) (until + 0) (omega arith) in
          absurd (cc),
    )

module _ (jwt : Jwt) (jose : Jose) (resolve : String → Result AuthError DidDocument) where
  -- The DS that a request is signed for accepts the token, with the claims that were signed, through
  -- the second 120 after the signing and no longer, where the signing DS's document shows its ES256
  -- key.
  pub sign_request-verify_jwt :
      (client : ServiceAuthClient jwt) (now later : ℕ) (jti target method token : String)
      (key : jose.p256.Key) (doc : DidDocument) (vm : VerificationMethod)
      → client.algorithm ≡ es256
      → ((t : String)
          → jwt.encode
              (header_of jwt client)
              (claims_for jwt client now jti target method)
              client.encoding_key
            ≡ ok t
          → IsEncoded jose key
              (header_of jwt client)
              (claims_for jwt client now jti target method)
              t)
      → resolve (canonical_did client.self_did) ≡ ok doc
      → select_verification_method doc client.key_id ≡ ok vm
      → p256_key jose vm ≡ ok key
      → sign_request jwt client now jti target method ≡ ok token
      → (verify_jwt jose resolve (some target) later token
          ≡ ok (received (claims_for jwt client now jti target method)))
        ↔ (later ≤ now + 120)
  unfolding sign_request claims_for
  sign_request-verify_jwt client now later jti target method token key doc vm alg encodes found
        chosen known signed =
      let c = claims_for jwt client now jti target method in
      let enc = encodes token (encoded _ token signed) in
      rw
        (checked jose resolve key (header_of jwt client) c token later (now + 120) doc vm enc
          (ap alg_name alg) refl found chosen known)
        (in_time later (now + 120) (received c))
    where
      encoded :
          (r : Result String String) (t : String)
          → map_err (λ e. auth_failed ("JWT encoding failed: " ++ e)) r ≡ ok t
          → r ≡ ok t
      encoded (ok a) t h = cc
      encoded (err e) t h = cc
