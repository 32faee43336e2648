-- ===== src/Federation/ServiceAuth.antt =====
-- server/src/federation/service_auth.rs: the tokens of this DS's requests to other ones. `Jwt` is the
-- packages jsonwebtoken and p256 with the texts of their errors, and `str::from_utf8`. A time is a
-- number of seconds.
pub mod Accepted
mod Tests
use Prim.Native.String.{◌++◌}
use mls_ds.Prelude.{
  ℕ, ◌+◌, ◌*◌, String, Bool, true, false, Option, none, some, List, length, ltb, ◌==◌,
}
use mls_ds.Prelude.Int.{ℤ, pos}
use mls_ds.Prelude.Results.{Result, ok, err, ok_or, map_err, ◌>>=◌, ◌>>◌}
use mls_ds.Did.{is_empty}
use mls_ds.Federation.Url.{trim_start, trim_end}
use mls_ds.Auth.Types.{JwtHeader}

-- federation/errors.rs: the two errors of this file
pub data ServiceAuthError : Type 0 where
  config_error auth_failed : String → ServiceAuthError

pub record ServiceAuthClaims : Type 0 where
  pub iss : String
  pub aud : String
  pub exp : ℤ
  pub iat : ℤ
  pub lxm : String
  pub jti : String

pub data Algorithm : Type 0 where
  es256 hs256 : Algorithm

-- The name in the token's header.
abbrev pub alg_name : Algorithm → String
alg_name es256 = "ES256"
alg_name hs256 = "HS256"

pub record Jwt : Type 1 where
  pub EncodingKey : Type 0
  pub from_ec_pem : List ℕ → Result String EncodingKey
  pub from_ec_der : List ℕ → EncodingKey
  pub from_secret : List ℕ → EncodingKey
  pub encode : JwtHeader → ServiceAuthClaims → EncodingKey → Result String String
  pub from_pkcs8_pem : String → Result String (Unit {0})
  pub from_utf8 : List ℕ → Option String

module _ (jwt : Jwt) where
  pub record ServiceAuthClient : Type 0 where
    pub self_did : String
    pub encoding_key : jwt.EncodingKey
    pub algorithm : Algorithm
    pub key_id : Option String

  abbrev pub reject_if : Bool → String → Result ServiceAuthError (Unit {0})
  reject_if true reason = err (config_error reason)
  reject_if false reason = ok tt

  unfoldable pub validate_es256_pem : List ℕ → Result ServiceAuthError (Unit {0})
  validate_es256_pem pem = do
    reject_if (length pem == 0) "Invalid ES256 PEM key: empty input"
    reject_if (ltb (16 * 1024) (length pem)) "Invalid ES256 PEM key: input exceeds 16384 bytes"
    pem_str ← ok_or (jwt.from_utf8 pem) (config_error "Invalid ES256 PEM key: non-UTF-8 input")
    reject_if (is_empty (trim_end (trim_start pem_str))) "Invalid ES256 PEM key: empty input"
    map_err (λ e. config_error ("Invalid ES256 PEM key: " ++ e)) (jwt.from_pkcs8_pem pem_str)

  unfoldable pub from_es256_pem :
      String → List ℕ → Option String → Result ServiceAuthError ServiceAuthClient
  from_es256_pem self_did pem key_id = do
    validate_es256_pem pem
    key ← map_err (λ e. config_error ("Invalid ES256 PEM key: " ++ e)) (jwt.from_ec_pem pem)
    ok (record { self_did = self_did; encoding_key = key; algorithm = es256; key_id = key_id })

  unfoldable pub from_es256_der :
      String → List ℕ → Option String → Result ServiceAuthError ServiceAuthClient
  from_es256_der self_did der key_id = ok (record {
    self_did = self_did;
    encoding_key = jwt.from_ec_der der;
    algorithm = es256;
    key_id = key_id;
  })

  unfoldable pub from_shared_secret : String → List ℕ → ServiceAuthClient
  from_shared_secret self_did secret = record {
    self_did = self_did;
    encoding_key = jwt.from_secret secret;
    algorithm = hs256;
    key_id = none;
  }

  -- `jti` is the new UUID.
  unfoldable pub claims_for : ServiceAuthClient → ℕ → String → String → String → ServiceAuthClaims
  claims_for client now jti target_did method = record {
    iss = client.self_did;
    aud = target_did;
    exp = pos (now + 120);
    iat = pos now;
    lxm = method;
    jti = jti;
  }

  abbrev pub header_of : ServiceAuthClient → JwtHeader
  header_of client = record { alg = alg_name client.algorithm; kid = client.key_id }

  unfoldable pub sign_request :
      ServiceAuthClient → ℕ → String → String → String → Result ServiceAuthError String
  sign_request client now jti target_did method =
      map_err (λ e. auth_failed ("JWT encoding failed: " ++ e))
        (jwt.encode (header_of client) (claims_for client now jti target_did method)
          client.encoding_key)
