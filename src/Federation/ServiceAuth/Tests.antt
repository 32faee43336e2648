-- ===== src/Federation/ServiceAuth/Tests.antt =====
-- A request to another DS and the token's last second.
use mls_ds.Prelude.{ℕ, ◌+◌, ◌≤◌, String, ◌≡◌, refl, ◌↔◌, none, some, List, [], ◌∷◌, bytes_eq, find}
use mls_ds.Prelude.Strings.{split_at, rsplit_first, to_ascii_uppercase}
use mls_ds.Prelude.Results.{Result, ok, err}
use mls_ds.Wire.{as_bytes}
use mls_ds.Did.{canonical_did}
use mls_ds.Auth.Types.{AuthError, DidDocument, VerificationMethod}
use mls_ds.Auth.Token.{Scheme, Jose, p256_key, select_verification_method, verify_jwt}
use mls_ds.Federation.ServiceAuth.{
  Jwt, ServiceAuthClient, es256, config_error, claims_for, header_of, sign_request,
  validate_es256_pem, from_es256_pem,
}
use mls_ds.Federation.ServiceAuth.Accepted.{received, IsEncoded, sign_request-verify_jwt}

abbrev jwt : Jwt
jwt = record {
  EncodingKey = List ℕ;
  from_ec_pem = λ pem. ok pem;
  from_ec_der = λ der. der;
  from_secret = λ secret. secret;
  encode = λ header claims key. ok "h.p.k";
  from_pkcs8_pem = λ s. ok tt;
  from_utf8 = λ bytes. some "PEM";
}

abbrev client : ServiceAuthClient jwt
client = record {
  self_did = "did:web:here";
  encoding_key = 1 ∷ [];
  algorithm = es256;
  key_id = none;
}

-- A signature is valid where it is the letter k.
abbrev scheme : Scheme
scheme = record {
  Key = Unit {0};
  Signature = List ℕ;
  from_sec1_bytes = λ bytes. ok tt;
  from_slice = λ bytes. some bytes;
  verify = λ key message signature. bytes_eq signature (as_bytes "k");
}

abbrev jose : Jose
jose = record {
  p256 = scheme;
  k256 = scheme;
  from_affine_coordinates = λ x y. some tt;
  decode = λ s. ok (as_bytes s);
  header = λ bytes. ok (header_of jwt client);
  claims = λ bytes. ok (received (claims_for jwt client 100 "n1" "did:web:there" "m"));
  multibase = λ s. ok [];
}

abbrev x32 : String
x32 = "xxxxxxxxxxxxxxxxxxxxxxxxxxxxxxxx"

abbrev vm : VerificationMethod
vm = record {
  id = "did:web:here#atproto";
  public_key_multibase = none;
  public_key_jwk = some (record { kty = "EC"; crv = "P-256"; x = x32; y = some x32 });
}

abbrev resolve : String → Result AuthError DidDocument
resolve did = ok (record { id = did; verification_method = vm ∷ [] })

empty_pem :
    from_es256_pem jwt "did:web:here" [] none
    ≡ err (config_error "Invalid ES256 PEM key: empty input")
unfolding from_es256_pem validate_es256_pem
empty_pem = refl

encoded :
    (t : String)
    → jwt.encode
        (header_of jwt client)
        (claims_for jwt client 100 "n1" "did:web:there" "m")
        (1 ∷ [])
      ≡ ok t
    → IsEncoded jose tt
        (header_of jwt client)
        (claims_for jwt client 100 "n1" "did:web:there" "m")
        t
unfolding as_bytes bytes_eq
encoded t e = record {
  header_part = "h";
  payload_part = "p";
  signature_part = "k";
  joined =
      only
        (jwt.encode (header_of jwt client) (claims_for jwt client 100 "n1" "did:web:there" "m")
          (1 ∷ []))
        refl e;
  dotless = (refl, refl, refl);
  header_json = as_bytes "h";
  payload_json = as_bytes "p";
  sig_bytes = as_bytes "k";
  sig = as_bytes "k";
  header_decoded = refl;
  payload_decoded = refl;
  sig_decoded = refl;
  header_read = refl;
  claims_read = refl;
  sig_read = refl;
  verified = refl;
}
  where
    only : (r : Result String String) → r ≡ ok "h.p.k" → r ≡ ok t → t ≡ "h.p.k"
    only (ok a) e k = cc
    only (err x) e k = cc

chosen :
    select_verification_method (record { id = "did:web:here"; verification_method = vm ∷ [] }) none
    ≡ ok vm
unfolding select_verification_method find rsplit_first split_at
chosen = refl

known : p256_key jose vm ≡ ok tt
unfolding p256_key as_bytes to_ascii_uppercase
known = refl

signed : sign_request jwt client 100 "n1" "did:web:there" "m" ≡ ok "h.p.k"
unfolding sign_request
signed = refl

sign_request-verify_jwt_example :
    (verify_jwt jose resolve (some "did:web:there") 220 "h.p.k"
      ≡ ok (received (claims_for jwt client 100 "n1" "did:web:there" "m")))
    ↔ (220 ≤ 100 + 120)
unfolding canonical_did
sign_request-verify_jwt_example =
    sign_request-verify_jwt jwt jose resolve client 100 220 "n1" "did:web:there" "m" "h.p.k" tt
      (record { id = "did:web:here"; verification_method = vm ∷ [] }) vm refl encoded refl chosen
      known signed
