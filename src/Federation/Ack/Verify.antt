-- ===== src/Federation/Ack/Verify.antt =====
-- Signing, verifying and tampering; and the two kinds of signed bytes are never the same.
use mls_ds.Prelude.{ℕ, ◌^◌, ◌<◌, ◌≡◌, ◌≢◌, ◌↔◌, refl, sym, ap, ◌∙◌, true, some, List, length}
use mls_ds.Wire.{be_i32, as_bytes}
use mls_ds.Wire.Injective.{append_split, be_i32_inj, be_i64_inj, prefixed_inj}
use mls_ds.Federation.Signature.{Es256}
use mls_ds.Federation.Receipt
use mls_ds.Federation.Receipt.Verify
use mls_ds.Federation.Ack.{DeliveryAck, AckSigner, domain, canonical_bytes, sign_ack, verify}

-- The fields stay within the widths that the encoding gives them.
pub record Fits (a : DeliveryAck) : Type 0 where
  pub message_id : length a.message_id < 2 ^ 32
  pub convo_id : length a.convo_id < 2 ^ 32
  pub epoch : a.epoch < 2 ^ 32
  pub receiver_ds_did : length a.receiver_ds_did < 2 ^ 32
  pub acked_at : a.acked_at < 2 ^ 64

abbrev signed_bytes : DeliveryAck → List ℕ
signed_bytes a = canonical_bytes a.message_id a.convo_id a.epoch a.receiver_ds_did a.acked_at

-- The two acknowledgments say the same, whatever their signatures.
pub record SameClaim (a b : DeliveryAck) : Type 0 where
  pub message_id : a.message_id ≡ b.message_id
  pub convo_id : a.convo_id ≡ b.convo_id
  pub epoch : a.epoch ≡ b.epoch
  pub receiver_ds_did : a.receiver_ds_did ≡ b.receiver_ds_did
  pub acked_at : a.acked_at ≡ b.acked_at

canonical_bytes_inj :
    (a b : DeliveryAck) → Fits a → Fits b → signed_bytes a ≡ signed_bytes b → SameClaim a b
unfolding canonical_bytes
canonical_bytes_inj a b fa fb e =
    let body = append_split domain domain _ _ refl e in
    let message = prefixed_inj a.message_id b.message_id _ _ fa.message_id fb.message_id body.1 in
    let convo = prefixed_inj a.convo_id b.convo_id _ _ fa.convo_id fb.convo_id message.1 in
    let epoch = append_split (be_i32 a.epoch) (be_i32 b.epoch) _ _ refl convo.1 in
    let did =
      prefixed_inj a.receiver_ds_did b.receiver_ds_did _ _ fa.receiver_ds_did fb.receiver_ds_did
        epoch.1 in
    record {
      message_id = message.0;
      convo_id = convo.0;
      epoch = be_i32_inj a.epoch b.epoch fa.epoch fb.epoch epoch.0;
      receiver_ds_did = did.0;
      acked_at = be_i64_inj a.acked_at b.acked_at fa.acked_at fb.acked_at did.1;
    }

SameClaim→signed_bytes : (a b : DeliveryAck) → SameClaim a b → signed_bytes a ≡ signed_bytes b
SameClaim→signed_bytes a b c = cc (c.message_id, c.convo_id, c.epoch, c.receiver_ds_did, c.acked_at)

verify-parsed :
    (e : Es256) (a : DeliveryAck) (k : e.VerifyingKey) (sig : e.Signature)
    → e.from_slice a.signature ≡ some sig
    → verify e a k ≡ e.verify k (signed_bytes a) sig
unfolding verify
verify-parsed e a k sig h = rw (h, verify)

module _ (e : Es256) (s : AckSigner e) (now : ℕ) (message convo : List ℕ) (epoch : ℕ) where
  abbrev pub issued : DeliveryAck
  issued = sign_ack e s now message convo epoch

  verify-issued :
      (a : DeliveryAck)
      → a.signature ≡ issued.signature
      → verify e a (e.verifying_key s.signing_key)
        ≡ e.verify
            (e.verifying_key s.signing_key)
            (signed_bytes a)
            (e.sign s.signing_key (signed_bytes issued))
  unfolding sign_ack
  verify-issued a same = verify-parsed e a _ _ (ap e.from_slice same ∙ e.from_slice-to_bytes _)

  -- An acknowledgment that carries the signature which a server made for one delivery is accepted
  -- under the server's key exactly when it says what the server signed, both within the widths of the
  -- encoding.
  pub verify-sign_ack :
      (a : DeliveryAck)
      → a.signature ≡ issued.signature
      → Fits a
      → Fits issued
      → (verify e a (e.verifying_key s.signing_key) ≡ true) ↔ SameClaim a issued
  verify-sign_ack a same fa fi = (
    λ accepted.
        canonical_bytes_inj a issued fa fi
          (e.verify_binds s.signing_key _ _ (sym (verify-issued a same) ∙ accepted)),
    λ claim.
        verify-issued a same
        ∙ ap
            (λ m.
              e.verify (e.verifying_key s.signing_key) m
                (e.sign s.signing_key (signed_bytes issued)))
            (SameClaim→signed_bytes a issued claim)
        ∙ e.verify-sign s.signing_key _,
  )

-- The signed bytes of an acknowledgment are never those of a receipt.
pub domains_apart :
    (message convo did convo' hash did' : List ℕ) (epoch at epoch' at' : ℕ)
    → canonical_bytes message convo epoch did at
      ≢ Receipt.canonical_bytes convo' epoch' hash did' at'
unfolding canonical_bytes Receipt.canonical_bytes as_bytes
domains_apart message convo did convo' hash did' epoch at epoch' at' e = cc

-- A signature made for an acknowledgment is never accepted on a receipt under the same key.
pub verify-sign_ack_as_receipt :
    (e : Es256) (s : AckSigner e) (now : ℕ) (message convo : List ℕ) (epoch : ℕ)
    (r : Receipt.SequencerReceipt)
    → r.signature ≡ (sign_ack e s now message convo epoch).signature
    → Receipt.verify e r (e.verifying_key s.signing_key) ≢ true
unfolding sign_ack
verify-sign_ack_as_receipt e s now message convo epoch r same accepted =
    let parsed = ap e.from_slice same ∙ e.from_slice-to_bytes _ in
    domains_apart _ _ _ _ _ _ _ _ _ _ (
      sym (
        e.verify_binds s.signing_key _ _
          (sym (Verify.verify-parsed e r (e.verifying_key s.signing_key) _ parsed) ∙ accepted)))
