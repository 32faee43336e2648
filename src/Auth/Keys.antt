-- ===== src/Auth/Keys.antt =====
-- server/src/auth.rs: extract_p256_key. `KeyParser` is the packages base64, multibase and p256.
-- `p256::FieldBytes::from_slice` panics where it is not given 32 bytes.
use mls_ds.Prelude.{
  ℕ, String, ◌&&◌, ◌==◌, Option, none, some, List, [], ◌∷◌, length, str_eq, if◌then◌else◌,
}
use mls_ds.Prelude.Strings.{to_ascii_uppercase}
use mls_ds.Prelude.Results.{Result, ok, err}
use mls_ds.Auth.Types.{PublicKeyJwk, VerificationMethod, DidDocument}

pub record KeyParser (V : Type 0) : Type 0 where
  -- URL_SAFE_NO_PAD
  pub decode : String → Result String (List ℕ)
  pub multibase : String → Result String (List ℕ)
  -- `from_encoded_point` of the two coordinates
  pub from_affine_coordinates : List ℕ → List ℕ → Option V
  pub from_sec1_bytes : List ℕ → Option V

-- What the search for a key returns, or a panic of its task.
pub data Extracted (V : Type 0) : Type 0 where
  found : Option V → Extracted V
  panics : Extracted V

-- A part of the loop's body: it may return from the function.
pub data Step (V : Type 0) : Type 0 where
  returns : Option V → Step V
  goes_on : Step V
  stops : Step V

module _ {V : Type 0} where
  abbrev pub or_goes_on : Option V → Step V
  or_goes_on none = goes_on
  or_goes_on (some key) = returns (some key)

module _ {V : Type 0} (keys : KeyParser V) where
  abbrev pub at_point : List ℕ → Result String (List ℕ) → Step V
  at_point x (err e) = returns none
  at_point x (ok y) =
      if length x == 32 && length y == 32
      then or_goes_on (keys.from_affine_coordinates x y)
      else stops

  abbrev pub with_y : List ℕ → Option String → Step V
  with_y x none = returns none
  with_y x (some y) = at_point x (keys.decode y)

  abbrev pub with_x : Result String (List ℕ) → Option String → Step V
  with_x (err e) y = returns none
  with_x (ok x) y = with_y x y

  abbrev pub try_jwk : Option PublicKeyJwk → Step V
  try_jwk none = goes_on
  try_jwk (some jwk) =
      if str_eq jwk.kty "EC" && str_eq (to_ascii_uppercase jwk.crv) "P-256"
      then with_x (keys.decode jwk.x) jwk.y
      else goes_on

  -- The bytes 80 and 24, then the 33 bytes of a compressed key.
  abbrev pub compressed : List ℕ → Option V
  compressed (a ∷ b ∷ key) =
      if length key == 33 && (a == 0x80 && b == 0x24) then keys.from_sec1_bytes key else none
  compressed _ = none

  abbrev pub decoded : Result String (List ℕ) → Option V
  decoded (ok bytes) = compressed bytes
  decoded (err e) = none

  abbrev pub try_multibase : Option String → Option V
  try_multibase none = none
  try_multibase (some mb) = decoded (keys.multibase mb)

  abbrev pub or_next : Option V → Extracted V → Extracted V
  or_next none rest = rest
  or_next (some key) rest = found (some key)

  abbrev pub after_jwk : Step V → Option V → Extracted V → Extracted V
  after_jwk (returns o) key rest = found o
  after_jwk goes_on key rest = or_next key rest
  after_jwk stops key rest = panics

  unfoldable pub first_key : List VerificationMethod → Extracted V
  first_key [] = found none
  first_key (vm ∷ vms) =
      after_jwk (try_jwk vm.public_key_jwk) (try_multibase vm.public_key_multibase) (first_key vms)

  unfoldable pub extract_p256_key : DidDocument → Extracted V
  extract_p256_key did_doc = first_key did_doc.verification_method
