-- ===== src/Federation/Ack/Tests.antt =====
-- An acknowledgment that is signed, and its claims.
use mls_ds.Prelude.{◌≡◌, ◌≢◌, ◌↔◌, refl, true, [], ◌∷◌, arith}
use mls_ds.Federation.Signature.Example.{plain}
use mls_ds.Federation.Receipt.{SequencerReceipt}
use mls_ds.Federation.Receipt
use mls_ds.Federation.Ack.{AckSigner, verify, sign_ack}
use mls_ds.Federation.Ack.Verify.{
  Fits, SameClaim, issued, verify-sign_ack, verify-sign_ack_as_receipt,
}

abbrev signer : AckSigner plain
signer = record { signing_key = 5; ds_did = 100 ∷ 101 ∷ [] }

ack-Fits : Fits (issued plain signer 77 (2 ∷ []) (1 ∷ []) 3)
unfolding sign_ack
ack-Fits = record {
  message_id = omega arith;
  convo_id = omega arith;
  epoch = omega arith;
  receiver_ds_did = omega arith;
  acked_at = omega arith;
}

verify-sign_ack_example :
    (verify plain (issued plain signer 77 (2 ∷ []) (1 ∷ []) 3) 5 ≡ true)
    ↔ SameClaim
        (issued plain signer 77 (2 ∷ []) (1 ∷ []) 3)
        (issued plain signer 77 (2 ∷ []) (1 ∷ []) 3)
verify-sign_ack_example =
    verify-sign_ack plain signer 77 (2 ∷ []) (1 ∷ []) 3 (issued plain signer 77 (2 ∷ []) (1 ∷ []) 3)
      refl ack-Fits ack-Fits

-- A receipt that carries the acknowledgment's signature.
abbrev forged : SequencerReceipt
forged = record {
  convo_id = 1 ∷ [];
  epoch = 3;
  commit_hash = [];
  sequencer_did = 100 ∷ 101 ∷ [];
  issued_at = 77;
  signature = (sign_ack plain signer 77 (2 ∷ []) (1 ∷ []) 3).signature;
}

verify-sign_ack_as_receipt_example : Receipt.verify plain forged 5 ≢ true
verify-sign_ack_as_receipt_example =
    verify-sign_ack_as_receipt plain signer 77 (2 ∷ []) (1 ∷ []) 3 forged refl
