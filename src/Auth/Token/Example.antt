-- ===== src/Auth/Token/Example.antt =====
-- Keys and signatures that are bytes, and the one document of an issuer who signs as another user.
use mls_ds.Prelude.{ℕ, String, none, some, List, [], ◌∷◌, bytes_eq}
use mls_ds.Prelude.Int.{pos}
use mls_ds.Prelude.Results.{Result, ok}
use mls_ds.Wire.{as_bytes}
use mls_ds.Auth.Types.{AuthError, AtProtoClaims, DidDocument}
use mls_ds.Auth.Token.{Scheme, Jose}

-- A signature is valid where it is the key.
abbrev pub scheme : Scheme
scheme = record {
  Key = List ℕ;
  Signature = List ℕ;
  from_sec1_bytes = λ bytes. ok bytes;
  from_slice = λ bytes. some bytes;
  verify = λ key message signature. bytes_eq key signature;
}

abbrev pub claims : AtProtoClaims
claims = record {
  iss = "did:web:mallory";
  aud = "did:web:ds";
  exp = pos 100;
  iat = none;
  sub = some "did:web:alice";
  lxm = some "blue.catbird.mlsChat.getConvos";
  jti = some "n1";
}

abbrev pub jose : Jose
jose = record {
  p256 = scheme;
  k256 = scheme;
  from_affine_coordinates = λ x y. none;
  decode = λ s. ok (as_bytes s);
  header = λ bytes. ok (record { alg = "ES256K"; kid = none });
  claims = λ bytes. ok claims;
  multibase = λ s. ok (0xe7 ∷ 0x01 ∷ as_bytes s);
}

abbrev pub documents : String → Result AuthError DidDocument
documents did = ok (record {
  id = did;
  verification_method =
      record {
        id = "did:web:mallory#atproto";
        public_key_multibase = some "k";
        public_key_jwk = none;
      }
      ∷ [];
})
