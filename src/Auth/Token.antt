-- ===== src/Auth/Token.antt =====
-- server/src/auth.rs: AuthMiddleware::verify_jwt. `Jose` is the packages base64, serde_json, multibase,
-- p256 and k256 as it calls them, with the texts of their errors. `resolve_did` is what the cache or
-- the network says of a DID. `p256::FieldBytes::from_slice` panics where it is not given 32 bytes.
pub mod Genuine
pub mod Example
mod Tests
use Prim.Native.Nat.{zero, suc}
use Prim.Native.String.{◌++◌}
use mls_ds.Prelude.{
  ℕ, String, Bool, not, ◌&&◌, ◌||◌, Option, none, some, List, [], ◌∷◌, find, length, str_eq, ltb,
  ◌==◌, if◌then◌else◌,
}
use mls_ds.Prelude as P
use mls_ds.Prelude.Int.{pos, leb_ℤ}
use mls_ds.Prelude.Strings.{
  split_at, trim_start_matches, rsplit_first, to_ascii_uppercase, to_ascii_lowercase, lower_hex,
}
use mls_ds.Prelude.Results.{Result, ok, err, ok_or, map_err, ◌>>=◌, ◌>>◌}
use mls_ds.Wire.{as_bytes}
use mls_ds.Did.{canonical_did}
use mls_ds.Auth.Types.{
  AuthError, invalid_token, token_expired, invalid_signature, missing_verification_method,
  unsupported_key_type, Failure, refused, panicked, AtProtoClaims, JwtHeader, PublicKeyJwk,
  VerificationMethod, DidDocument,
}

-- One of the two signature schemes: keys from bytes, signatures from bytes, and the check.
pub record Scheme : Type 1 where
  pub Key : Type 0
  pub Signature : Type 0
  pub from_sec1_bytes : List ℕ → Result String Key
  pub from_slice : List ℕ → Option Signature
  pub verify : Key → List ℕ → Signature → Bool

pub record Jose : Type 1 where
  pub p256 : Scheme
  pub k256 : Scheme
  -- A P-256 key from the two coordinates of a point
  pub from_affine_coordinates : List ℕ → List ℕ → Option p256.Key
  -- URL_SAFE_NO_PAD
  pub decode : String → Result String (List ℕ)
  pub header : List ℕ → Result String JwtHeader
  pub claims : List ℕ → Result String AtProtoClaims
  pub multibase : String → Result String (List ℕ)

abbrev pub Checked : Type 0 → Type 0
Checked A = Result Failure A

abbrev pub deny : {A : Type 0} → AuthError → Checked A
deny e = err (refused e)

-- `map_err(|e| AuthError::InvalidToken(format!("…: {}", e)))?`
abbrev pub or_invalid : {A : Type 0} → String → Result String A → Checked A
or_invalid text r = map_err (λ e. refused (invalid_token (text ++ e))) r

abbrev pub present : {A : Type 0} → AuthError → Option A → Checked A
present e o = ok_or o (refused e)

abbrev pub unless : Bool → AuthError → Checked (Unit {0})
unless b e = if b then deny e else ok tt

unfoldable pub kid_matches : String → String → Bool
kid_matches vm_id kid =
    str_eq vm_id kid || str_eq (rsplit_first b'#' vm_id) (trim_start_matches b'#' kid)

abbrev pub first_of : List VerificationMethod → Checked VerificationMethod
first_of [] = deny missing_verification_method
first_of (vm ∷ vms) = ok vm

abbrev pub atproto_or_first :
    List VerificationMethod → Option VerificationMethod → Checked VerificationMethod
atproto_or_first vms (some vm) = ok vm
atproto_or_first vms none = first_of vms

abbrev pub select_among : List VerificationMethod → Option String → Checked VerificationMethod
select_among vms (some kid_value) =
    present (invalid_token ("No verification method matches JWT kid '" ++ (kid_value ++ "'")))
      (find (λ vm. kid_matches vm.id kid_value) vms)
select_among vms none =
    atproto_or_first vms (find (λ vm. str_eq (rsplit_first b'#' vm.id) "atproto") vms)

unfoldable pub select_verification_method : DidDocument → Option String → Checked VerificationMethod
select_verification_method did_doc kid =
    if length did_doc.verification_method == 0
    then deny missing_verification_method
    else select_among did_doc.verification_method kid

-- `secp256k1-pub`: the bytes e7 and 01, then the key.
abbrev pub multicodec_key : List ℕ → Checked (List ℕ)
multicodec_key [] = deny (invalid_token "multikey too short")
multicodec_key (a ∷ []) = deny (invalid_token "multikey too short")
multicodec_key (a ∷ b ∷ key) =
    if a == 0xe7 && b == 0x01
    then ok key
    else deny (
        unsupported_key_type (
          "Expected secp256k1-pub multicodec (0xe7 0x01), got "
          ++ (lower_hex a ++ (" " ++ lower_hex b))))

abbrev pub is_k256_curve : String → Bool
is_k256_curve crv = str_eq crv "secp256k1" || str_eq crv "k-256" || str_eq crv "p-256k"

module _ (jose : Jose) where
  abbrev pub coordinates : PublicKeyJwk → Checked (List ℕ × List ℕ)
  coordinates jwk = do
    x ← or_invalid "bad jwk.x: " (jose.decode jwk.x)
    y_text ← present missing_verification_method jwk.y
    y ← or_invalid "bad jwk.y: " (jose.decode y_text)
    ok (x, y)

  abbrev pub from_jwk : Option PublicKeyJwk → Checked (List ℕ)
  from_jwk none = deny missing_verification_method
  from_jwk (some jwk) = do
    unless (not (str_eq jwk.kty "EC")) (unsupported_key_type ("Expected EC, got " ++ jwk.kty))
    unless (not (is_k256_curve (to_ascii_lowercase jwk.crv)))
        (unsupported_key_type ("Expected secp256k1, got " ++ jwk.crv))
    point ← coordinates jwk
    ok (0x04 ∷ (P.◌++◌ point.0 point.1))

  abbrev pub from_multikey : String → Checked (List ℕ)
  from_multikey multibase_str = do
    bytes ← or_invalid "multibase decode failed: " (jose.multibase multibase_str)
    multicodec_key bytes

  abbrev pub secp256k1_key : Option String → Option PublicKeyJwk → Checked (List ℕ)
  secp256k1_key (some multibase) jwk = from_multikey multibase
  secp256k1_key none jwk = from_jwk jwk

  unfoldable pub extract_secp256k1_key : VerificationMethod → Checked (List ℕ)
  extract_secp256k1_key vm = secp256k1_key vm.public_key_multibase vm.public_key_jwk

  abbrev pub is_field : List ℕ → Bool
  is_field bytes = length bytes == 32

  abbrev pub point_of : List ℕ × List ℕ → Checked jose.p256.Key
  point_of (x, y) =
      if is_field x && is_field y
      then present (invalid_token "invalid P-256 point") (jose.from_affine_coordinates x y)
      else err panicked

  unfoldable pub p256_key : VerificationMethod → Checked jose.p256.Key
  p256_key vm = do
    jwk ← present missing_verification_method vm.public_key_jwk
    unless (not (str_eq jwk.kty "EC" && str_eq (to_ascii_uppercase jwk.crv) "P-256"))
        (unsupported_key_type ("Expected EC P-256, got " ++ (jwk.kty ++ (" " ++ jwk.crv))))
    point ← coordinates jwk
    point_of point

  abbrev pub k256_key : VerificationMethod → Checked jose.k256.Key
  k256_key vm = do
    key_bytes ← extract_secp256k1_key vm
    or_invalid "invalid secp256k1 key: " (jose.k256.from_sec1_bytes key_bytes)

  -- The three parts of a token, and what the first two say.
  pub record Token : Type 0 where
    pub header_part : String
    pub payload_part : String
    pub signature_part : String

  abbrev pub signing_input : Token → List ℕ
  signing_input t = as_bytes (t.header_part ++ ("." ++ t.payload_part))

  abbrev pub parts_of : List String → Checked Token
  parts_of (h ∷ p ∷ s ∷ []) = ok (record { header_part = h; payload_part = p; signature_part = s })
  parts_of _ = deny (invalid_token "Invalid JWT format")

  abbrev pub check_signature : (scheme : Scheme) → String → Token → scheme.Key → Checked (Unit {0})
  check_signature scheme text t key = do
    sig_bytes ← or_invalid "Invalid b64 sig: " (jose.decode t.signature_part)
    sig ← present (invalid_token text) (scheme.from_slice sig_bytes)
    unless (not (scheme.verify key (signing_input t) sig)) invalid_signature

  module _ (resolve_did : String → Result AuthError DidDocument) where
    abbrev pub method_for : AtProtoClaims → JwtHeader → Checked VerificationMethod
    method_for claims header = do
      did_doc ← map_err refused (resolve_did (canonical_did claims.iss))
      select_verification_method did_doc header.kid

    abbrev pub check_es256 : Token → JwtHeader → AtProtoClaims → Checked (Unit {0})
    check_es256 t header claims = do
      vm ← method_for claims header
      key ← p256_key vm
      check_signature jose.p256 "invalid ES256 signature" t key

    abbrev pub check_es256k : Token → JwtHeader → AtProtoClaims → Checked (Unit {0})
    check_es256k t header claims = do
      vm ← method_for claims header
      key ← k256_key vm
      check_signature jose.k256 "invalid ES256K signature" t key

    abbrev pub check_alg : Token → JwtHeader → AtProtoClaims → Checked (Unit {0})
    check_alg t header claims =
        if str_eq header.alg "ES256"
        then check_es256 t header claims
        else if str_eq header.alg "ES256K"
        then check_es256k t header claims
        else deny (unsupported_key_type ("Unsupported alg: " ++ header.alg))

    abbrev pub check_audience : Option String → AtProtoClaims → Checked (Unit {0})
    check_audience none claims = ok tt
    check_audience (some service_did) claims =
        unless (not (str_eq claims.aud service_did))
          (invalid_token "aud does not match SERVICE_DID")

    -- `service_did` is the variable SERVICE_DID.
    unfoldable pub verify_jwt : Option String → ℕ → String → Checked AtProtoClaims
    verify_jwt service_did now token = do
      t ← parts_of (split_at b'.' token)
      header_json ← or_invalid "Invalid base64 header: " (jose.decode t.header_part)
      payload_json ← or_invalid "Invalid base64 payload: " (jose.decode t.payload_part)
      header ← or_invalid "Invalid header JSON: " (jose.header header_json)
      claims ← or_invalid "Invalid claims JSON: " (jose.claims payload_json)
      unless (not (leb_ℤ (pos now) claims.exp)) token_expired
      check_audience service_did claims
      check_alg t header claims
      ok claims
