-- ===== src/Federation/Signature.antt =====
-- The ES256 signatures and the SHA-256 digest of the packages `p256` and `sha2`, which
-- federation/receipt.rs and federation/ack.rs only call: a record of operations, with what the code
-- relies on as its laws.
pub mod Example
use mls_ds.Prelude.{ℕ, ◌≡◌, Bool, true, Option, some, List, length}

pub record Es256 : Type 1 where
  pub SigningKey : Type 0
  pub VerifyingKey : Type 0
  pub Signature : Type 0
  pub verifying_key : SigningKey → VerifyingKey
  pub sign : SigningKey → List ℕ → Signature
  pub verify : VerifyingKey → List ℕ → Signature → Bool
  -- `Signature::to_bytes` and `Signature::from_slice`
  pub to_bytes : Signature → List ℕ
  pub from_slice : List ℕ → Option Signature
  pub sha256 : List ℕ → List ℕ
  pub from_slice-to_bytes : (s : Signature) → from_slice (to_bytes s) ≡ some s
  pub verify-sign : (k : SigningKey) (m : List ℕ) → verify (verifying_key k) m (sign k m) ≡ true
  -- A signature made by a key is accepted under that key for no other message.
  pub verify_binds :
      (k : SigningKey) (m n : List ℕ) → verify (verifying_key k) n (sign k m) ≡ true → n ≡ m
  pub length-sha256 : (m : List ℕ) → length (sha256 m) ≡ 32
