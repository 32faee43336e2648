-- ===== src/Federation/Ack.antt =====
-- federation/ack.rs: delivery acknowledgments. The epoch is the bit pattern of an `i32`, the time that
-- of an `i64`; the signatures come from `Es256`. `from_pem`, which parses a key file, is left out.
pub mod Verify
mod Tests
use mls_ds.Prelude.{ℕ, Bool, true, false, Option, none, some, List, ◌++◌}
use mls_ds.Wire.{be_i32, be_i64, prefixed, as_bytes}
use mls_ds.Federation.Signature.{Es256}

pub record DeliveryAck : Type 0 where
  pub message_id : List ℕ
  pub convo_id : List ℕ
  pub epoch : ℕ
  pub receiver_ds_did : List ℕ
  pub acked_at : ℕ
  pub signature : List ℕ

abbrev pub domain : List ℕ
unfolding as_bytes
domain = as_bytes "CATBIRD-ACK-V1:"

unfoldable pub canonical_bytes : List ℕ → List ℕ → ℕ → List ℕ → ℕ → List ℕ
canonical_bytes message_id convo_id epoch receiver_ds_did acked_at =
    domain
    ++ prefixed message_id
        (prefixed convo_id (be_i32 epoch ++ prefixed receiver_ds_did (be_i64 acked_at)))

module _ (e : Es256) where
  pub record AckSigner : Type 0 where
    pub signing_key : e.SigningKey
    pub ds_did : List ℕ

  -- `acked_at` is the clock's reading.
  unfoldable pub sign_ack : AckSigner → ℕ → List ℕ → List ℕ → ℕ → DeliveryAck
  sign_ack s acked_at message_id convo_id epoch =
      let canonical = canonical_bytes message_id convo_id epoch s.ds_did acked_at in
      record {
        message_id = message_id;
        convo_id = convo_id;
        epoch = epoch;
        receiver_ds_did = s.ds_did;
        acked_at = acked_at;
        signature = e.to_bytes (e.sign s.signing_key canonical);
      }

  unfoldable pub verify : DeliveryAck → e.VerifyingKey → Bool
  verify a verifying_key =
      let canonical =
        canonical_bytes a.message_id a.convo_id a.epoch a.receiver_ds_did a.acked_at in
      elim (e.from_slice a.signature) [
        | none ↦ false
        | some sig ↦ e.verify verifying_key canonical sig
      ]
