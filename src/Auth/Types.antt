-- ===== src/Auth/Types.antt =====
-- server/src/auth.rs: errors, claims and DID documents. A time is a number of seconds.
use mls_ds.Prelude.{String, Option, List}
use mls_ds.Prelude.Int.{ℤ}

pub data AuthError : Type 0 where
  missing_auth_header invalid_auth_format token_expired invalid_signature : AuthError
  rate_limit_exceeded missing_verification_method missing_jti replay_detected : AuthError
  missing_lxm lxm_mismatch : AuthError
  invalid_token invalid_did did_resolution_failed unsupported_key_type internal : String → AuthError

-- An answer to the request, or a panic of its task.
pub data Failure : Type 0 where
  refused : AuthError → Failure
  panicked : Failure

pub record AtProtoClaims : Type 0 where
  pub iss : String
  pub aud : String
  pub exp : ℤ
  pub iat : Option ℤ
  pub sub : Option String
  pub lxm : Option String
  pub jti : Option String

pub record JwtHeader : Type 0 where
  pub alg : String
  pub kid : Option String

pub record PublicKeyJwk : Type 0 where
  pub kty : String
  pub crv : String
  pub x : String
  pub y : Option String

pub record VerificationMethod : Type 0 where
  pub id : String
  pub public_key_multibase : Option String
  pub public_key_jwk : Option PublicKeyJwk

pub record DidDocument : Type 0 where
  pub id : String
  pub verification_method : List VerificationMethod
