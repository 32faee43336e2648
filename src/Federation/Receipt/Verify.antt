-- ===== src/Federation/Receipt/Verify.antt =====
-- Signing, verifying and tampering.
use mathlib.Core.List.{append_assoc}
use mls_ds.Prelude.{
  ℕ, ◌≡◌, ◌↔◌, ◌≢◌, sym, ap, ◌∙◌, true, some, List, ◌++◌, arith, length, length-append,
}
use mls_ds.Wire.{le_u32, be_i32, be_i64, prefixed}
use mls_ds.Federation.Signature.{Es256}
use mls_ds.Federation.Receipt.{
  SequencerReceipt, ReceiptSigner, domain, canonical_bytes, sign_receipt, verify,
}
use mls_ds.Federation.Receipt.Canonical.{Fits, SameClaim, signed_bytes, canonical_bytes_inj}

SameClaim→signed_bytes : (r s : SequencerReceipt) → SameClaim r s → signed_bytes r ≡ signed_bytes s
SameClaim→signed_bytes r s c = cc (c.convo_id, c.epoch, c.commit_hash, c.sequencer_did, c.issued_at)

pub verify-parsed :
    (e : Es256) (r : SequencerReceipt) (k : e.VerifyingKey) (sig : e.Signature)
    → e.from_slice r.signature ≡ some sig
    → verify e r k ≡ e.verify k (signed_bytes r) sig
unfolding verify
verify-parsed e r k sig h = rw (h, verify)

module _ (e : Es256) (s : ReceiptSigner e) (now : ℕ) (convo : List ℕ) (epoch : ℕ)
    (ct : List ℕ) where
  abbrev pub issued : SequencerReceipt
  issued = sign_receipt e s now convo epoch ct

  verify-issued :
      (r : SequencerReceipt)
      → r.signature ≡ issued.signature
      → verify e r (e.verifying_key s.signing_key)
        ≡ e.verify
            (e.verifying_key s.signing_key)
            (signed_bytes r)
            (e.sign s.signing_key (signed_bytes issued))
  unfolding sign_receipt
  verify-issued r same = verify-parsed e r _ _ (ap e.from_slice same ∙ e.from_slice-to_bytes _)

  -- A receipt that carries the signature which the sequencer made for one commit is accepted under
  -- the sequencer's key exactly when it says what the sequencer signed, both receipts within the
  -- widths of the encoding.
  pub verify-sign_receipt :
      (r : SequencerReceipt)
      → r.signature ≡ issued.signature
      → Fits r
      → Fits issued
      → (verify e r (e.verifying_key s.signing_key) ≡ true) ↔ SameClaim r issued
  verify-sign_receipt r same fr fi = (
    λ accepted.
        canonical_bytes_inj r issued fr fi
          (e.verify_binds s.signing_key _ _ (sym (verify-issued r same) ∙ accepted)),
    λ claim.
        verify-issued r same
        ∙ ap
            (λ m.
              e.verify (e.verifying_key s.signing_key) m
                (e.sign s.signing_key (signed_bytes issued)))
            (SameClaim→signed_bytes r issued claim)
        ∙ e.verify-sign s.signing_key _,
  )

-- The claim that is shifted: a sequencer's name begins with the length prefix of its rest, and the
-- prefix moves into the hash.
module _ (e : Es256) (k : e.SigningKey) (name : List ℕ) (now : ℕ) (convo : List ℕ) (epoch : ℕ) where
  abbrev prefixed_name : List ℕ
  prefixed_name = le_u32 (length name) ++ name

  abbrev pub shifted : List ℕ → SequencerReceipt
  shifted ct =
      let r =
        issued e (record { signing_key = k; sequencer_did = prefixed_name }) now convo epoch ct in
      record r {
        commit_hash = r.commit_hash ++ le_u32 (length prefixed_name);
        sequencer_did = name;
      }

  signed_bytes-shifted :
      (hash : List ℕ)
      → canonical_bytes convo epoch (hash ++ le_u32 (length prefixed_name)) name now
        ≡ canonical_bytes convo epoch hash prefixed_name now
  unfolding canonical_bytes prefixed
  signed_bytes-shifted hash =
      ap (λ x. domain ++ prefixed convo (be_i32 epoch ++ x))
        (append_assoc hash (le_u32 (length prefixed_name)) (prefixed name (be_i64 now)))

  -- A receipt that claims another commit hash, longer by a length prefix, and another sequencer than the
  -- signed one is accepted with the signed one's signature, where the signer's name begins with the
  -- length prefix of its rest.
  pub verify-shifted :
      (ct : List ℕ)
      → (verify e (shifted ct) (e.verifying_key k) ≡ true)
        × ((shifted ct).commit_hash
            ≢ (issued e
                (record { signing_key = k; sequencer_did = prefixed_name })
                now
                convo
                epoch
                ct).commit_hash)
  unfolding sign_receipt
  verify-shifted ct = (
    verify-parsed e (shifted ct) _ _ (e.from_slice-to_bytes _)
        ∙ ap (λ m. e.verify (e.verifying_key k) m (e.sign k (signed_bytes original)))
            (signed_bytes-shifted original.commit_hash)
        ∙ e.verify-sign k _,
    λ same.
        omega (
          arith,
          ap length same,
          length-append original.commit_hash (le_u32 (length prefixed_name)),
        ),
  )
    where
      original : SequencerReceipt
      original =
          issued e (record { signing_key = k; sequencer_did = prefixed_name }) now convo epoch ct
