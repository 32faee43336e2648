-- ===== src/Federation/Transfer/Failover.antt =====
-- Taking over the role of the sequencer, on every fate of every statement.
use mls_ds.Prelude.{
  String, ◌≡◌, refl, ap, sym, subst, ◌∙◌, Bool, true, false, Option, none, some, if◌then◌else◌,
  exists, inl, inr, ◌⊎◌,
}
use mls_ds.Sql.{World, After, After-query, After-bind, query}
use mls_ds.Store.{Store, Conversation, put_conversation}
use mls_ds.Federation.Sequencer.{select, sequencer_column, is_ours}
use mls_ds.Did.{dids_equivalent}
use mls_ds.Federation.Transfer.{
  TransferResult, accepted, database, SequencerTransfer, is_local, takes_over, take_row,
  cas_sequencer, after_take, when_local, unless_ours, assume_row, assume_sequencer_role,
}

-- The sequencer was the expected one or none was recorded, and is now this DS, which has an active
-- member of its own in the conversation.
pub record Taken (self_did convo expected : String) (s s' : Store) : Type 0 where
  pub row : Conversation
  pub found : s.conversations convo ≡ some row
  pub vacant : takes_over row.sequencer_ds expected ≡ true
  pub local : exists (is_local self_did convo) s.members ≡ true
  pub tables : s' ≡ put_conversation s convo (record row { sequencer_ds = some self_did })

module _ (t : SequencerTransfer) (convo expected : String) (w : World Store) where
  abbrev Holds : Type 0
  Holds = is_ours t.self_did (sequencer_column (w.store.conversations convo)) ≡ true

  -- This DS is the sequencer already, or takes the role over.
  abbrev pub Assumed : TransferResult → World Store → Type 0
  Assumed r w' =
      (r ≡ accepted convo)
      × ((Holds × (w'.store ≡ w.store)) ⊎ Taken t.self_did convo expected w.store w'.store)

  abbrev Untouched : {A : Type 0} → A → World Store → Type 0
  Untouched a w' = w'.store ≡ w.store

  abbrev Cas : Bool → Store → Type 0
  Cas true s' = Taken t.self_did convo expected w.store s'
  Cas false s' = s' ≡ w.store

  take_hit-Cas :
      (c : Conversation) (b : Bool)
      → w.store.conversations convo ≡ some c
      → exists (is_local t.self_did convo) w.store.members ≡ true
      → takes_over c.sequencer_ds expected ≡ b
      → let r : Bool × Store =
          if b
          then (true, put_conversation w.store convo (record c { sequencer_ds = some t.self_did }))
          else (false, w.store) in
        Cas r.0 r.1
  take_hit-Cas c true found local vacant = record {
    row = c;
    found = found;
    vacant = vacant;
    local = local;
    tables = refl;
  }
  take_hit-Cas c false found local vacant = refl

  take_row-Cas :
      (o : Option Conversation)
      → w.store.conversations convo ≡ o
      → exists (is_local t.self_did convo) w.store.members ≡ true
      → let r = take_row convo t.self_did expected w.store o in Cas r.0 r.1
  take_row-Cas none found local = refl
  take_row-Cas (some c) found local =
      take_hit-Cas c (takes_over c.sequencer_ds expected) found local refl

  after_take-Assumed :
      (b : Bool) (u : World Store) → Cas b u.store → After Assumed Untouched (after_take convo b u)
  after_take-Assumed true u h = (refl, inr h)
  after_take-Assumed false u h = h

  when_local-Assumed :
      (b : Bool) (u : World Store)
      → u.store ≡ w.store
      → exists (is_local t.self_did convo) w.store.members ≡ b
      → After Assumed Untouched (when_local t convo expected b u)
  unfolding cas_sequencer
  when_local-Assumed false u same local = same
  when_local-Assumed true u same local =
      After-bind (query database (λ s. some (cas_sequencer convo t.self_did expected s)))
        (after_take convo) u (λ b v. Cas b v.store) Assumed Untouched
        (After-query database (λ s. some (cas_sequencer convo t.self_did expected s)) u
          (λ b v. Cas b v.store) Untouched same
          (λ b s eq.
            let e : cas_sequencer convo t.self_did expected u.store ≡ (b, s) = cc in
            subst (λ (r : Bool × Store). Cas r.0 r.1)
              (ap (cas_sequencer convo t.self_did expected) (sym same) ∙ e)
              (take_row-Cas (w.store.conversations convo) refl local)))
        after_take-Assumed

  unless_ours-Assumed :
      (b : Bool) (u : World Store)
      → u.store ≡ w.store
      → (b ≡ true → Holds)
      → After Assumed Untouched (unless_ours t convo expected b u)
  unless_ours-Assumed true u same h = (refl, inl (h refl, same))
  unless_ours-Assumed false u same h =
      let f : Store → Option (Bool × Store) =
        λ s. some (exists (is_local t.self_did convo) s.members, s) in
      After-bind (query database f) (when_local t convo expected) u
        (λ b v. (v.store ≡ w.store) × (exists (is_local t.self_did convo) w.store.members ≡ b))
        Assumed Untouched
        (After-query database f u
          (λ b v. (v.store ≡ w.store) × (exists (is_local t.self_did convo) w.store.members ≡ b))
          Untouched same
          (λ b s eq.
            let es : u.store ≡ s = cc in
            let el : exists (is_local t.self_did convo) u.store.members ≡ b = cc in
            (
              sym es ∙ same,
              ap (λ (s : Store). exists (is_local t.self_did convo) s.members) (sym same) ∙ el,
            )))
        (λ b v h. when_local-Assumed b v h.0 h.1)

  assume_row-Assumed :
      (row : Option (Option String)) (u : World Store)
      → u.store ≡ w.store
      → sequencer_column (w.store.conversations convo) ≡ row
      → After Assumed Untouched (assume_row t convo expected row u)
  assume_row-Assumed none u same found = same
  assume_row-Assumed (some none) u same found = unless_ours-Assumed false u same (λ e. cc)
  assume_row-Assumed (some (some ds)) u same found =
      unless_ours-Assumed (dids_equivalent ds t.self_did) u same (λ e. rw found e)

  -- Assuming the role either fails and changes no table, or finds this DS to be the sequencer already
  -- and changes no table, or takes the role over from the expected sequencer, or from none, with an
  -- active local member; then, and only then, the row of the conversation changes.
  pub assume_sequencer_role-Assumed :
      After Assumed Untouched (assume_sequencer_role t convo expected w)
  unfolding assume_sequencer_role
  assume_sequencer_role-Assumed =
      After-bind (query database (select convo sequencer_column)) (assume_row t convo expected) w
        (λ row u. (u.store ≡ w.store) × (sequencer_column (w.store.conversations convo) ≡ row))
        Assumed Untouched
        (After-query database (select convo sequencer_column) w
          (λ row u. (u.store ≡ w.store) × (sequencer_column (w.store.conversations convo) ≡ row))
          Untouched refl (λ row s eq. let es : w.store ≡ s = cc in (sym es, cc)))
        (λ row u h. assume_row-Assumed row u h.0 h.1)
