-- ===== src/Federation/Sequencer/Outcome.antt =====
-- What `submit_commit` does to the tables, on every fate of every statement.
use mls_ds.Prelude.{
  subst, ℕ, ◌+◌, ◌%◌, ◌^◌, String, ◌≡◌, refl, sym, ◌∙◌, Bool, true, false, Option, none, some, List,
  ◌==◌, ==_iff, if◌then◌else◌,
}
use mls_ds.Sql.{World, After, After-query, After-bind, query, pure}
use mls_ds.Store.{Store, Conversation, put_conversation}
use mls_ds.Federation.Signature.{Es256}
use mls_ds.Federation.Sequencer.{
  database, CommitResult, accepted, conflict, select, cas_row, cas_epoch, actual_epoch, lost_to,
  Sequencer, receipt_of, after_cas, cas_if, submit_commit,
}

-- The compare-and-set found the row at `current` and moved it to `proposed`.
pub record Advances (convo : String) (current proposed : ℕ) (s s' : Store) : Type 0 where
  pub row : Conversation
  pub found : s.conversations convo ≡ some row
  pub was : row.current_epoch ≡ current
  pub tables : s' ≡ put_conversation s convo (record row { current_epoch = proposed })

abbrev Cas : String → ℕ → ℕ → Store → Bool × Store → Type 0
Cas convo proposed current s (true, s') = Advances convo current proposed s s'
Cas convo proposed current s (false, s') =
    (s' ≡ s)
    × ((row : Conversation) → s.conversations convo ≡ some row → ¬ (row.current_epoch ≡ current))

hit-Cas :
    (convo : String) (proposed current : ℕ) (s : Store) (c : Conversation) (b : Bool)
    → s.conversations convo ≡ some c
    → (c.current_epoch == current) ≡ b
    → Cas convo proposed current s (
        if b
        then (true, put_conversation s convo (record c { current_epoch = proposed }))
        else (false, s))
hit-Cas convo proposed current s c true found same = record {
  row = c;
  found = found;
  was = (==_iff c.current_epoch current).0 same;
  tables = refl;
}
hit-Cas convo proposed current s c false found same = (
  refl,
  λ row there e.
      let er : c ≡ row = cc in
      let t : (c.current_epoch == current) ≡ true =
        rw er ((==_iff row.current_epoch current).1 e) in
      cc,
)

cas_row-Cas :
    (convo : String) (proposed current : ℕ) (s : Store) (o : Option Conversation)
    → s.conversations convo ≡ o
    → Cas convo proposed current s (cas_row convo proposed current s o)
cas_row-Cas convo proposed current s none found = (refl, λ row there e. cc)
cas_row-Cas convo proposed current s (some c) found =
    hit-Cas convo proposed current s c (c.current_epoch == current) found refl

pub cas_epoch-Cas :
    (convo : String) (proposed current : ℕ) (s : Store)
    → Cas convo proposed current s (cas_epoch convo proposed current s)
unfolding cas_epoch
cas_epoch-Cas convo proposed current s =
    cas_row-Cas convo proposed current s (s.conversations convo) refl

module _ (e : Es256) (q : Sequencer e) (now : ℕ) (convo : String) (current proposed : ℕ)
    (bytes : List ℕ) where
  -- An accepted commit is the next epoch of the row, which now holds it, with the receipt for it; any
  -- other answer leaves the tables alone.
  abbrev pub Ruling : Store → CommitResult → World Store → Type 0
  Ruling s (accepted n receipt) w =
      Advances convo current n s w.store
      × (n ≡ proposed)
      × (proposed ≡ (current + 1) % 2 ^ 32)
      × (receipt ≡ receipt_of e q.receipt_signer now convo proposed bytes)
  Ruling s (conflict n reason) w = w.store ≡ s

  after_cas-Ruling :
      (w : World Store) (s : Store) (b : Bool)
      → proposed ≡ (current + 1) % 2 ^ 32
      → Cas convo proposed current s (b, w.store)
      → After (Ruling s) (λ _ w'. w'.store ≡ s) (after_cas e q now convo proposed bytes b w)
  after_cas-Ruling w s true follows adv = (adv, refl, follows, refl)
  after_cas-Ruling w s false follows (same, miss) =
      After-bind (query database (select convo actual_epoch)) (λ a. pure (lost_to a)) w
        (λ _ w'. w'.store ≡ s) (Ruling s) (λ _ w'. w'.store ≡ s)
        (After-query database (select convo actual_epoch) w (λ _ w'. w'.store ≡ s)
          (λ _ w'. w'.store ≡ s) same (λ a s' eq. let es : w.store ≡ s' = cc in sym es ∙ same))
        lost
    where
      lost : (a : Option ℕ) (w' : World Store) → w'.store ≡ s → Ruling s (lost_to a) w'
      lost none w' h = h
      lost (some n) w' h = h

  cas_if-Ruling :
      (w : World Store) (b : Bool)
      → (proposed == (current + 1) % 2 ^ 32) ≡ b
      → After
          (Ruling w.store)
          (λ _ w'. w'.store ≡ w.store)
          (cas_if e b q now convo current proposed bytes w)
  cas_if-Ruling w false follows = refl
  cas_if-Ruling w true follows =
      After-bind (query database (λ s. some (cas_epoch convo proposed current s)))
        (after_cas e q now convo proposed bytes) w
        (λ b w'. Cas convo proposed current w.store (b, w'.store)) (Ruling w.store)
        (λ _ w'. w'.store ≡ w.store)
        (After-query database (λ s. some (cas_epoch convo proposed current s)) w
          (λ b w'. Cas convo proposed current w.store (b, w'.store)) (λ _ w'. w'.store ≡ w.store)
          refl
          (λ b s' eq.
            let same : cas_epoch convo proposed current w.store ≡ (b, s') = cc in
            subst (Cas convo proposed current w.store) same
              (cas_epoch-Cas convo proposed current w.store)))
        (λ b w' h.
          after_cas-Ruling w' w.store b ((==_iff proposed ((current + 1) % 2 ^ 32)).0 follows) h)

  -- Submitting a commit either is accepted, where the conversation's row was at the current epoch that
  -- the caller names, the proposed one follows it, the row now holds the proposed one and the receipt
  -- is the signer's for this commit; or answers with a conflict or an error, and no table changes.
  pub submit_commit-Ruling :
      (w : World Store)
      → After
          (Ruling w.store)
          (λ _ w'. w'.store ≡ w.store)
          (submit_commit e q now convo current proposed bytes w)
  unfolding submit_commit
  submit_commit-Ruling w = cas_if-Ruling w (proposed == (current + 1) % 2 ^ 32) refl
