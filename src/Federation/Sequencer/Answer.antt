-- ===== src/Federation/Sequencer/Answer.antt =====
-- What `submit_commit` answers where no statement fails.
use mls_ds.Prelude.{
  suc, ℕ, ◌+◌, ◌-◌, ◌%◌, ◌^◌, String, ◌≡◌, refl, ◌∙◌, true, Option, none, some, List, ◌==◌,
  if◌then◌else◌, Bool-cases, inl, inr,
}
use mls_ds.Prelude.Results.{ok}
use mls_ds.Sql.{World, NoFails, query}
use mls_ds.Store.{Store, Conversation}
use mls_ds.Federation.Signature.{Es256}
use mls_ds.Federation.Sequencer.{
  accepted, conflict, must_follow, CommitResult, already_advanced, not_found, cas_epoch, Sequencer,
  receipt_of, submit_commit,
}

module _ (e : Es256) (q : Sequencer e) (now : ℕ) (convo : String) (current proposed : ℕ)
    (bytes : List ℕ) where
  -- The answer to a proposal that follows the epoch that the caller names, by the conversation's row.
  abbrev pub ruled : Option Conversation → CommitResult
  ruled none = conflict (2 ^ 32 - 1) not_found
  ruled (some c) =
      if c.current_epoch == current
      then accepted proposed (receipt_of e q.receipt_signer now convo proposed bytes)
      else conflict c.current_epoch (already_advanced c.current_epoch)

  answer_none :
      (w : World Store)
      → NoFails w
      → (proposed == (current + 1) % 2 ^ 32) ≡ true
      → w.store.conversations convo ≡ none
      → (submit_commit e q now convo current proposed bytes w).0 ≡ ok (ruled none)
  unfolding submit_commit cas_epoch query
  answer_none w sound follows found =
      rw (follows, sound w.step, found, sound (suc w.step)) (rw found refl)

  answer_some :
      (w : World Store) (c : Conversation)
      → NoFails w
      → (proposed == (current + 1) % 2 ^ 32) ≡ true
      → w.store.conversations convo ≡ some c
      → (submit_commit e q now convo current proposed bytes w).0 ≡ ok (ruled (some c))
  unfolding submit_commit cas_epoch query
  answer_some w c sound follows found = elim (Bool-cases (c.current_epoch == current)) [
    | inl t ↦ rw (follows, sound w.step, found, t) refl
    | inr f ↦ rw (follows, sound w.step, found, f, sound (suc w.step), found) refl
  ]

  answer_row :
      (w : World Store) (o : Option Conversation)
      → NoFails w
      → (proposed == (current + 1) % 2 ^ 32) ≡ true
      → w.store.conversations convo ≡ o
      → (submit_commit e q now convo current proposed bytes w).0 ≡ ok (ruled o)
  answer_row w none sound follows found = answer_none w sound follows found
  answer_row w (some c) sound follows found = answer_some w c sound follows found

  -- Where no statement fails, a commit is answered: with a conflict at the caller's epoch where the
  -- proposed one does not follow it; with a conflict at -1 where the conversation does not exist, and at
  -- the row's epoch where that is not the caller's; and it is accepted, with the receipt, otherwise.
  pub submit_commit-ruled :
      (w : World Store)
      → NoFails w
      → (submit_commit e q now convo current proposed bytes w).0
        ≡ ok (
            if proposed == (current + 1) % 2 ^ 32
            then ruled (w.store.conversations convo)
            else conflict current (must_follow proposed current))
  unfolding submit_commit
  submit_commit-ruled w sound = elim (Bool-cases (proposed == (current + 1) % 2 ^ 32)) [
    | inl t ↦ answer_row w (w.store.conversations convo) sound t refl ∙ rw t refl
    | inr f ↦ rw f refl
  ]
