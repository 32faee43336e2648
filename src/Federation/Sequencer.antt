-- ===== src/Federation/Sequencer.antt =====
-- federation/sequencer.rs: ordering commits by a compare-and-set on `current_epoch`. Epochs are the bit
-- patterns of an `i32`, so that -1 is 2 ^ 32 - 1 and `+ 1` wraps; the reason of a conflict stands for
-- the text that is made of its numbers.
pub mod Outcome
pub mod Once
pub mod Answer
mod Tests
use mls_ds.Prelude.{
  ℕ, ◌+◌, ◌-◌, ◌%◌, ◌^◌, String, Bool, true, false, Option, none, some, List, ◌==◌, if◌then◌else◌,
}
use mls_ds.Sql.{Exec, query, pure, ◌>>=◌}
use mls_ds.Wire.{as_bytes}
use mls_ds.Store.{Store, Conversation, put_conversation}
use mls_ds.Did.{canonical_did, dids_equivalent}
use mls_ds.Federation.Signature.{Es256}
use mls_ds.Federation.Receipt.{SequencerReceipt, ReceiptSigner, sign_receipt}

-- `sqlx::Error`
pub data SqlError : Type 0 where
  database : SqlError

pub data Reason : Type 0 where
  must_follow : ℕ → ℕ → Reason
  already_advanced : ℕ → Reason
  not_found : Reason

pub data CommitResult : Type 0 where
  accepted : ℕ → Option SequencerReceipt → CommitResult
  conflict : ℕ → Reason → CommitResult

abbrev pub sequencer_column : Option Conversation → Option (Option String)
sequencer_column none = none
sequencer_column (some c) = some c.sequencer_ds

-- NULL means that this DS is the sequencer.
abbrev pub is_ours : String → Option (Option String) → Bool
is_ours self_did none = false
is_ours self_did (some none) = true
is_ours self_did (some (some ds)) = dids_equivalent ds self_did

-- SELECT of one column from conversations, which changes nothing.
abbrev pub select : {A : Type 0} → String → (Option Conversation → A) → Store → Option (A × Store)
select convo column s = some (column (s.conversations convo), s)

abbrev pub cas_row : String → ℕ → ℕ → Store → Option Conversation → Bool × Store
cas_row convo proposed current s none = (false, s)
cas_row convo proposed current s (some c) =
    if c.current_epoch == current
    then (true, put_conversation s convo (record c { current_epoch = proposed }))
    else (false, s)

-- UPDATE conversations SET current_epoch = $2 WHERE id = $1 AND current_epoch = $3, and whether it
-- changed a row
unfoldable pub cas_epoch : String → ℕ → ℕ → Store → Bool × Store
cas_epoch convo proposed current s = cas_row convo proposed current s (s.conversations convo)

abbrev pub actual_epoch : Option Conversation → Option ℕ
actual_epoch none = none
actual_epoch (some c) = some c.current_epoch

abbrev pub lost_to : Option ℕ → CommitResult
lost_to (some actual) = conflict actual (already_advanced actual)
lost_to none = conflict (2 ^ 32 - 1) not_found

unfoldable pub get_epoch : String → Exec Store SqlError (Option ℕ)
get_epoch convo = query database (select convo actual_epoch)

module _ (e : Es256) where
  pub record Sequencer : Type 0 where
    pub self_did : String
    pub receipt_signer : Option (ReceiptSigner e)

  unfoldable pub is_sequencer_for : Sequencer → String → Exec Store SqlError Bool
  is_sequencer_for q convo = do
    row ← query database (select convo sequencer_column)
    pure (is_ours q.self_did row)

  -- `self.receipt_signer.as_ref().map(|s| s.sign_receipt(..))`
  abbrev pub receipt_of :
      Option (ReceiptSigner e) → ℕ → String → ℕ → List ℕ → Option SequencerReceipt
  unfolding sign_receipt
  receipt_of none now convo proposed bytes = none
  receipt_of (some s) now convo proposed bytes =
      some (sign_receipt e s now (as_bytes convo) proposed bytes)

  -- What follows the compare-and-set.
  abbrev pub after_cas :
      Sequencer → ℕ → String → ℕ → List ℕ → Bool → Exec Store SqlError CommitResult
  after_cas q now convo proposed bytes true =
      pure (accepted proposed (receipt_of q.receipt_signer now convo proposed bytes))
  after_cas q now convo proposed bytes false = do
    actual ← query database (select convo actual_epoch)
    pure (lost_to actual)

  abbrev pub cas_if :
      Bool → Sequencer → ℕ → String → ℕ → ℕ → List ℕ → Exec Store SqlError CommitResult
  cas_if false q now convo current proposed bytes =
      pure (conflict current (must_follow proposed current))
  cas_if true q now convo current proposed bytes = do
    won ← query database (λ s. some (cas_epoch convo proposed current s))
    after_cas q now convo proposed bytes won

  -- `now` is the clock's reading.
  unfoldable pub submit_commit :
      Sequencer → ℕ → String → ℕ → ℕ → List ℕ → Exec Store SqlError CommitResult
  submit_commit q now convo current proposed bytes =
      cas_if (proposed == (current + 1) % 2 ^ 32) q now convo current proposed bytes
