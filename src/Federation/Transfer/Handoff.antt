-- ===== src/Federation/Transfer/Handoff.antt =====
-- Initiating and accepting a transfer, on every fate of every statement.
use mls_ds.Prelude.{
  String, ◌≡◌, refl, ap, sym, subst, ◌∙◌, true, false, Option, none, some, eq_refl, Bool-cases, inl,
  inr,
}
use mls_ds.Prelude.Results.{Result, ok, err}
use mls_ds.Sql.{World, Exec, After, After-query, After-bind, query, pure, lift, ◌>>=◌, ◌>>◌}
use mls_ds.Store.{Store, Conversation, put_conversation}
use mls_ds.Did.{canonical_did, dids_equivalent}
use mls_ds.Federation.Sequencer.{select, sequencer_column, is_ours}
use mls_ds.Federation.Transfer.{
  TransferResult, transferred, accepted, TransferError, not_current_sequencer, database,
  SequencerTransfer, check_holder, set_row, set_sequencer, initiate_transfer, accept_transfer,
}

-- The conversation's sequencer was `holder` (or nobody in particular) and is now `target`.
pub record Handed (convo holder target : String) (s s' : Store) : Type 0 where
  pub row : Conversation
  pub found : s.conversations convo ≡ some row
  pub held : is_ours holder (some row.sequencer_ds) ≡ true
  pub tables : s' ≡ put_conversation s convo (record row { sequencer_ds = some target })

module _ (convo holder target : String) where
  set_row-Handed :
      (s : Store) (o : Option Conversation)
      → s.conversations convo ≡ o
      → is_ours holder (sequencer_column o) ≡ true
      → Handed convo holder target s (set_row convo target s o)
  set_row-Handed s none found held = cc
  set_row-Handed s (some c) found held = record {
    row = c;
    found = found;
    held = held;
    tables = refl;
  }

  check_holder-held :
      (row : Option (Option String)) (a : Unit {0})
      → check_holder convo holder row ≡ ok a
      → is_ours holder row ≡ true
  check_holder-held none a h = cc
  check_holder-held (some none) a h = refl
  check_holder-held (some (some ds)) a h = elim (Bool-cases (dids_equivalent ds holder)) [
    | inl t ↦ t
    | inr f ↦
        let e : check_holder convo holder (some (some ds)) ≡ err (not_current_sequencer convo ds) =
          rw f refl in
        cc
  ]

  abbrev guarded : TransferResult → Exec Store TransferError TransferResult
  guarded result = do
    row ← query database (select convo sequencer_column)
    lift (check_holder convo holder row)
    query database (λ s. some (tt, set_sequencer convo target s))
    pure result

  module _ (w : World Store) (result : TransferResult) where
    abbrev Done : TransferResult → World Store → Type 0
    Done r w' = (r ≡ result) × Handed convo holder target w.store w'.store

    abbrev Undone : {A : Type 0} → A → World Store → Type 0
    Undone a w' = w'.store ≡ w.store

    write-Done :
        (w' : World Store)
        → w'.store ≡ w.store
        → is_ours holder (sequencer_column (w.store.conversations convo)) ≡ true
        → After Done Undone
            ((query database (λ s. some (tt, set_sequencer convo target s)) >> pure result) w')
    unfolding set_sequencer
    write-Done w' same held =
        After-bind (query database (λ s. some (tt, set_sequencer convo target s)))
          (λ _. pure result) w' (λ _ u. Handed convo holder target w.store u.store) Done Undone
          (After-query database (λ s. some (tt, set_sequencer convo target s)) w'
            (λ _ u. Handed convo holder target w.store u.store) Undone same
            (λ a s eq.
              let es : set_sequencer convo target w'.store ≡ s = cc in
              subst (Handed convo holder target w.store)
                (ap (set_sequencer convo target) (sym same) ∙ es)
                (set_row-Handed w.store (w.store.conversations convo) refl held)))
          (λ a u h. (refl, h))

    checked-Done :
        (r : Result TransferError (Unit {0})) (w' : World Store)
        → w'.store ≡ w.store
        → check_holder convo holder (sequencer_column (w.store.conversations convo)) ≡ r
        → After Done Undone (
            (lift r
                >> (query database (λ s. some (tt, set_sequencer convo target s)) >> pure result))
              w')
    checked-Done (ok a) w' same h = write-Done w' same (check_holder-held _ a h)
    checked-Done (err e) w' same h = same

    guarded-Done : After Done Undone (guarded result w)
    guarded-Done =
        After-bind (query database (select convo sequencer_column))
          (λ row.
            lift (check_holder convo holder row)
            >> (query database (λ s. some (tt, set_sequencer convo target s)) >> pure result))
          w
          (λ row w'. (w'.store ≡ w.store) × (sequencer_column (w.store.conversations convo) ≡ row))
          Done Undone
          (After-query database (select convo sequencer_column) w
            (λ row w'.
              (w'.store ≡ w.store) × (sequencer_column (w.store.conversations convo) ≡ row))
            Undone refl (λ row s eq. let es : w.store ≡ s = cc in (sym es, cc)))
          (λ row w' h.
            checked-Done (check_holder convo holder row) w' h.0
              (ap (check_holder convo holder) h.1))

-- Initiating a transfer either finds this DS to be the sequencer and makes the new one the sequencer,
-- or fails and changes no table.
pub initiate_transfer-Handed :
    (t : SequencerTransfer) (convo new_did : String) (w : World Store)
    → After
        (λ r w'. (r ≡ transferred convo new_did) × Handed convo t.self_did new_did w.store w'.store)
        (λ _ w'. w'.store ≡ w.store)
        (initiate_transfer t convo new_did w)
unfolding initiate_transfer
initiate_transfer-Handed t convo new_did w =
    guarded-Done convo t.self_did new_did w (transferred convo new_did)

-- Accepting a transfer either finds the DS that offers it to be the sequencer and makes this DS the
-- sequencer, or fails and changes no table.
pub accept_transfer-Handed :
    (t : SequencerTransfer) (convo from_did : String) (w : World Store)
    → After
        (λ r w'. (r ≡ accepted convo) × Handed convo from_did t.self_did w.store w'.store)
        (λ _ w'. w'.store ≡ w.store)
        (accept_transfer t convo from_did w)
unfolding accept_transfer
accept_transfer-Handed t convo from_did w =
    guarded-Done convo from_did t.self_did w (accepted convo)

-- The tables after a run that returned.
returned :
    {A : Type 0} (r : Result TransferError A × World Store) (a : A) (Q : A → World Store → Type 0)
    (R : TransferError → World Store → Type 0)
    → After Q R r
    → r.0 ≡ ok a
    → Q a r.1
returned (ok b, w) a Q R h same = let e : b ≡ a = cc in subst (λ x. Q x w) e h
returned (err x, w) a Q R h same = cc

target_ours :
    (convo holder target did : String) (s s' : Store)
    → Handed convo holder target s s'
    → is_ours did (sequencer_column (s'.conversations convo)) ≡ dids_equivalent target did
target_ours convo holder target did s s' h =
    ap (λ (t : Store). is_ours did (sequencer_column (t.conversations convo))) h.tables
    ∙ rw (eq_refl convo) refl

pub dids_equivalent_refl : (d : String) → dids_equivalent d d ≡ true
unfolding dids_equivalent
dids_equivalent_refl d = eq_refl (canonical_did d)

-- After one DS has initiated the transfer of a conversation to another and that one has accepted it,
-- each in its own database and whatever else the databases hold, the first does not take itself for
-- the sequencer and the second does, where their DIDs are not equivalent.
pub handoff-is_ours :
    (a b convo : String) (wa wb : World Store) (r r' : TransferResult)
    → (initiate_transfer (record { self_did = a }) convo b wa).0 ≡ ok r
    → (accept_transfer (record { self_did = b }) convo a wb).0 ≡ ok r'
    → dids_equivalent b a ≡ false
    → let sa = (initiate_transfer (record { self_did = a }) convo b wa).1.store in
      let sb = (accept_transfer (record { self_did = b }) convo a wb).1.store in
      (is_ours a (sequencer_column (sa.conversations convo)) ≡ false)
      × (is_ours b (sequencer_column (sb.conversations convo)) ≡ true)
handoff-is_ours a b convo wa wb r r' ok_a ok_b apart =
    let ta : SequencerTransfer = record { self_did = a } in
    let tb : SequencerTransfer = record { self_did = b } in
    let ha =
      returned (initiate_transfer ta convo b wa) r _ _ (initiate_transfer-Handed ta convo b wa)
        ok_a in
    let hb =
      returned (accept_transfer tb convo a wb) r' _ _ (accept_transfer-Handed tb convo a wb) ok_b in
    (
      target_ours convo a b a _ _ ha.1 ∙ apart,
      target_ours convo a b b _ _ hb.1 ∙ dids_equivalent_refl b,
    )
