-- ===== src/Federation/Receipt.antt =====
-- federation/receipt.rs: the receipts of the sequencer. The epoch is the bit pattern of an `i32`, the
-- time that of an `i64`; signatures and digests come from `Es256`.
pub mod Canonical
pub mod Verify
mod Tests
use mls_ds.Prelude.{ℕ, Bool, true, false, Option, none, some, List, ◌++◌}
use mls_ds.Wire.{be_i32, be_i64, prefixed, as_bytes}
use mls_ds.Federation.Signature.{Es256}

pub record SequencerReceipt : Type 0 where
  pub convo_id : List ℕ
  pub epoch : ℕ
  pub commit_hash : List ℕ
  pub sequencer_did : List ℕ
  pub issued_at : ℕ
  pub signature : List ℕ

abbrev pub domain : List ℕ
unfolding as_bytes
domain = as_bytes "CATBIRD-RECEIPT-V1:"

-- `canonical_bytes`: the commit hash has no length prefix.
unfoldable pub canonical_bytes : List ℕ → ℕ → List ℕ → List ℕ → ℕ → List ℕ
canonical_bytes convo_id epoch commit_hash sequencer_did issued_at =
    domain
    ++ prefixed convo_id
        (be_i32 epoch ++ (commit_hash ++ prefixed sequencer_did (be_i64 issued_at)))

module _ (e : Es256) where
  pub record ReceiptSigner : Type 0 where
    pub signing_key : e.SigningKey
    pub sequencer_did : List ℕ

  unfoldable pub hash_commit : List ℕ → List ℕ
  hash_commit ciphertext = e.sha256 ciphertext

  -- `issued_at` is the clock's reading.
  unfoldable pub sign_receipt : ReceiptSigner → ℕ → List ℕ → ℕ → List ℕ → SequencerReceipt
  unfolding hash_commit
  sign_receipt s issued_at convo_id epoch commit_ciphertext =
      let commit_hash = hash_commit commit_ciphertext in
      let canonical = canonical_bytes convo_id epoch commit_hash s.sequencer_did issued_at in
      record {
        convo_id = convo_id;
        epoch = epoch;
        commit_hash = commit_hash;
        sequencer_did = s.sequencer_did;
        issued_at = issued_at;
        signature = e.to_bytes (e.sign s.signing_key canonical);
      }

  unfoldable pub verify : SequencerReceipt → e.VerifyingKey → Bool
  verify r verifying_key =
      let canonical =
        canonical_bytes r.convo_id r.epoch r.commit_hash r.sequencer_did r.issued_at in
      elim (e.from_slice r.signature) [
        | none ↦ false
        | some sig ↦ e.verify verifying_key canonical sig
      ]
