-- ===== src/Federation/Receipt/Canonical.antt =====
-- What the canonical bytes of a receipt determine.
use mls_ds.Prelude.{ℕ, ◌^◌, ◌<◌, ◌≡◌, refl, List, arith, length}
use mls_ds.Wire.{be_i32}
use mls_ds.Wire.Injective.{append_split, be_i32_inj, be_i64_inj, prefixed_inj}
use mls_ds.Federation.Receipt.{SequencerReceipt, domain, canonical_bytes}

-- The fields stay within the widths that the encoding gives them.
pub record Fits (r : SequencerReceipt) : Type 0 where
  pub convo_id : length r.convo_id < 2 ^ 32
  pub epoch : r.epoch < 2 ^ 32
  pub commit_hash : length r.commit_hash ≡ 32
  pub sequencer_did : length r.sequencer_did < 2 ^ 32
  pub issued_at : r.issued_at < 2 ^ 64

abbrev pub signed_bytes : SequencerReceipt → List ℕ
signed_bytes r = canonical_bytes r.convo_id r.epoch r.commit_hash r.sequencer_did r.issued_at

-- The two receipts say the same, whatever their signatures.
pub record SameClaim (r s : SequencerReceipt) : Type 0 where
  pub convo_id : r.convo_id ≡ s.convo_id
  pub epoch : r.epoch ≡ s.epoch
  pub commit_hash : r.commit_hash ≡ s.commit_hash
  pub sequencer_did : r.sequencer_did ≡ s.sequencer_did
  pub issued_at : r.issued_at ≡ s.issued_at

-- Receipts with 32-byte hashes and the same canonical bytes say the same.
pub canonical_bytes_inj :
    (r s : SequencerReceipt) → Fits r → Fits s → signed_bytes r ≡ signed_bytes s → SameClaim r s
unfolding canonical_bytes
canonical_bytes_inj r s fr fs e =
    let body = append_split domain domain _ _ refl e in
    let convo = prefixed_inj r.convo_id s.convo_id _ _ fr.convo_id fs.convo_id body.1 in
    let epoch = append_split (be_i32 r.epoch) (be_i32 s.epoch) _ _ refl convo.1 in
    let hash =
      append_split r.commit_hash s.commit_hash _ _ (omega (arith, fr.commit_hash, fs.commit_hash))
        epoch.1 in
    let did =
      prefixed_inj r.sequencer_did s.sequencer_did _ _ fr.sequencer_did fs.sequencer_did hash.1 in
    record {
      convo_id = convo.0;
      epoch = be_i32_inj r.epoch s.epoch fr.epoch fs.epoch epoch.0;
      commit_hash = hash.0;
      sequencer_did = did.0;
      issued_at = be_i64_inj r.issued_at s.issued_at fr.issued_at fs.issued_at did.1;
    }
