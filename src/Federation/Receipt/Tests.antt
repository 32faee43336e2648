-- ===== src/Federation/Receipt/Tests.antt =====
-- A receipt that is signed, and its claims.
use mls_ds.Prelude.{◌≡◌, ◌≢◌, ◌↔◌, refl, true, [], ◌∷◌, arith}
use mls_ds.Federation.Signature.Example.{plain}
use mls_ds.Federation.Receipt.{hash_commit, ReceiptSigner, verify, sign_receipt}
use mls_ds.Federation.Receipt.Canonical.{Fits, SameClaim}
use mls_ds.Federation.Receipt.Verify.{issued, verify-sign_receipt, shifted, verify-shifted}

abbrev signer : ReceiptSigner plain
signer = record { signing_key = 5; sequencer_did = 100 ∷ 101 ∷ [] }

receipt-Fits : Fits (issued plain signer 77 (1 ∷ []) 3 (9 ∷ []))
unfolding sign_receipt hash_commit
receipt-Fits = record {
  convo_id = omega arith;
  epoch = omega arith;
  commit_hash = refl;
  sequencer_did = omega arith;
  issued_at = omega arith;
}

verify-sign_receipt_example :
    (verify plain (issued plain signer 77 (1 ∷ []) 3 (9 ∷ [])) 5 ≡ true)
    ↔ SameClaim
        (issued plain signer 77 (1 ∷ []) 3 (9 ∷ []))
        (issued plain signer 77 (1 ∷ []) 3 (9 ∷ []))
verify-sign_receipt_example =
    verify-sign_receipt plain signer 77 (1 ∷ []) 3 (9 ∷ [])
      (issued plain signer 77 (1 ∷ []) 3 (9 ∷ [])) refl receipt-Fits receipt-Fits

verify-shifted_example :
    (verify plain (shifted plain 5 (100 ∷ []) 77 (1 ∷ []) 3 (9 ∷ [])) 5 ≡ true)
    × ((shifted plain 5 (100 ∷ []) 77 (1 ∷ []) 3 (9 ∷ [])).commit_hash
        ≢ (issued plain
            (record { signing_key = 5; sequencer_did = 1 ∷ 0 ∷ 0 ∷ 0 ∷ 100 ∷ [] })
            77
            (1 ∷ [])
            3
            (9 ∷ [])).commit_hash)
verify-shifted_example = verify-shifted plain 5 (100 ∷ []) 77 (1 ∷ []) 3 (9 ∷ [])
