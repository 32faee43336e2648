-- ===== src/Actor/Membership/Rows.antt =====
-- What the two handlers do to the rows of members and welcomes.
use mls_ds.Prelude.{
  ℕ, suc, String, ◌≡◌, refl, ap, subst, ◌∙◌, true, false, Option, none, some, List, [], ◌∷◌, arith,
}
use mls_ds.Prelude.Results.{ok_or}
use mls_ds.Sql.{
  World, query, transaction, commit, After, Ensures, Ensures-query, Ensures-bind, After-bind,
  After-transaction, Ends, lift, pure, next, ◌>>=◌, ◌>>◌,
}
use mls_ds.Store.{Store, Conversation, Message, Member, done, is_row}
use mls_ds.Store.Messages.{max_seq, insert_message}
use mls_ds.Actor.{context, epoch_conflict, ActorState}
use mls_ds.Actor.Membership.{
  insert_commit, advance_and_insert, advance_row, try_advance_conversation_epoch, commit_row,
  store_commit, announce, mark_left, remove_count, remove_member_tx, handle_remove_member,
}
use mls_ds.Actor.Membership.Effect.{done-some, insert_message-some}

-- Neither table changes.
pub record Rest (s s' : Store) : Type 0 where
  pub members : s'.members ≡ s.members
  pub welcomes : s'.welcomes ≡ s.welcomes

pub Rest-refl : (s : Store) → Rest s s
Rest-refl s = record { members = refl; welcomes = refl }

pub Rest-trans : {s t u : Store} → Rest s t → Rest t u → Rest s u
Rest-trans f g = record { members = g.members ∙ f.members; welcomes = g.welcomes ∙ f.welcomes }

advance_row-Rest :
    (now : ℕ) (convo : String) (expected : ℕ) (o : Option Conversation) (s s' : Store)
    (r : Option ℕ)
    → advance_row now convo expected o s ≡ some (r, s')
    → Rest s s'
advance_row-Rest now convo expected none s s' r h = record {
  members = ground arith;
  welcomes = ground arith;
}
advance_row-Rest now convo expected (some c) s s' r h = record {
  members = ground arith;
  welcomes = ground arith;
}

insert_message-Rest : (m : Message) (s s' : Store) → insert_message m s ≡ some s' → Rest s s'
insert_message-Rest m s s' h =
    let e = insert_message-some m s s' h in
    record {
      members = ap (λ (x : Store). x.members) e;
      welcomes = ap (λ (x : Store). x.welcomes) e;
    }

module _ (st : ActorState) (now : ℕ) (s : Store) where
  insert_commit-Rest :
      (bytes : List ℕ) (id : String) (n : ℕ) (w : World Store)
      → Rest s w.store
      → Ensures (λ _ w'. Rest s w'.store) (insert_commit st now bytes id n w)
  unfolding insert_commit
  insert_commit-Rest bytes id n w f =
      Ensures-bind (query _ (λ t. some (suc (max_seq st.convo_id t.messages), t)))
        (λ seq.
          query (context "Failed to insert commit message")
            (λ t. done (insert_message (commit_row st now id n seq bytes) t))
          >> pure (some id, n))
        w (λ _ w'. Rest s w'.store) _
        (Ensures-query _ _ w _ (λ a t same. let e : w.store ≡ t = cc in subst (Rest s) e f))
        (λ seq w' g.
          Ensures-bind
            (query (context "Failed to insert commit message")
              (λ t. done (insert_message (commit_row st now id n seq bytes) t)))
            (λ _. pure (some id, n)) w' (λ _ v. Rest s v.store) _
            (Ensures-query _ _ w' _ (λ a t inserted.
              Rest-trans g (insert_message-Rest _ w'.store t (done-some _ a t inserted))))
            (λ _ v k. k))

  advance_and_insert-Rest :
      (bytes : List ℕ) (id : String) (w : World Store)
      → Rest s w.store
      → Ensures (λ _ w'. Rest s w'.store) (advance_and_insert st now bytes id w)
  unfolding advance_and_insert
  advance_and_insert-Rest bytes id w f =
      Ensures-bind (try_advance_conversation_epoch now st.convo_id st.current_epoch)
        (λ advanced.
          lift (ok_or advanced (epoch_conflict st.convo_id st.current_epoch))
          >>= insert_commit st now bytes id)
        w (λ _ w'. Rest s w'.store) _
        (unfold try_advance_conversation_epoch in
          Ensures-query _ _ w _ (λ r t same.
            Rest-trans f (advance_row-Rest now st.convo_id st.current_epoch _ w.store t r same)))
        after
    where
      after :
          (r : Option ℕ) (w' : World Store)
          → Rest s w'.store
          → Ensures
              (λ _ v. Rest s v.store)
              ((lift (ok_or r (epoch_conflict st.convo_id st.current_epoch))
                  >>= insert_commit st now bytes id)
                w')
      after none w' h = tt
      after (some n) w' h = insert_commit-Rest bytes id n w' h

pub store_commit-Rest :
    (st : ActorState) (now : ℕ) (bytes : Option (List ℕ)) (w : World Store)
    → Ensures (λ _ w'. Rest w.store w'.store) (store_commit st now bytes w)
unfolding store_commit
store_commit-Rest st now none w = Rest-refl w.store
store_commit-Rest st now (some bytes) w =
    advance_and_insert-Rest st now w.store bytes (w.fresh w.drawn) _ (Rest-refl w.store)

-- Row by row: those of the member have left now, the others are as they were.
abbrev pub Left : ℕ → String → String → List Member → List Member → Type 0
Left now convo did [] [] = Unit
Left now convo did [] (m' ∷ ms') = ⊥
Left now convo did (m ∷ ms) [] = ⊥
Left now convo did (m ∷ ms) (m' ∷ ms') =
    (is_row convo did m ≡ true → m' ≡ record m { left_at = some now })
    × (is_row convo did m ≡ false → m' ≡ m)
    × Left now convo did ms ms'

abbrev pub Removed : ℕ → String → String → Store → Store → Type 0
Removed now convo did s s' = Left now convo did s.members s'.members × (s'.welcomes ≡ s.welcomes)

mark_left-Left :
    (now : ℕ) (convo did : String) (ms : List Member)
    → Left now convo did ms (mark_left now convo did ms)
unfolding mark_left
mark_left-Left now convo did [] = tt
mark_left-Left now convo did (m ∷ ms) =
    (λ t. rw t refl, λ f. rw f refl, mark_left-Left now convo did ms)

module _ (st : ActorState) (now : ℕ) (w : World Store) where
  remove_member_tx-Removed :
      (did : String) (commit_bytes : Option (List ℕ))
      → Ensures
          (Ends {A = Option String × ℕ}
            (λ _ w'. Removed now st.convo_id did w.store w'.store)
            w.store)
          (remove_member_tx st now did commit_bytes (next w w.store))
  unfolding remove_member_tx
  remove_member_tx-Removed did commit_bytes =
      Ensures-bind (store_commit st now commit_bytes)
        (λ stored.
          query (context "Failed to mark member as left")
            (λ s. some (tt, record s { members = mark_left now st.convo_id did s.members }))
          >> pure (commit stored))
        (next w w.store) _ _ (store_commit-Rest st now commit_bytes (next w w.store))
        (λ stored u rest.
          Ensures-bind
            (query (context "Failed to mark member as left")
              (λ s. some (tt, record s { members = mark_left now st.convo_id did s.members })))
            (λ _. pure (commit stored)) u (λ _ v. Removed now st.convo_id did w.store v.store) _
            (Ensures-query _ _ u _ (λ a t same.
              let e : record u.store { members = mark_left now st.convo_id did u.store.members }
                  ≡ t =
                cc in
              rw (← e) (
                rw rest.members (mark_left-Left now st.convo_id did w.store.members),
                rest.welcomes,
              )))
            (λ _ v f. f))

  pub handle_remove_member-Removed :
      (did : String) (commit_bytes : Option (List ℕ))
      → After
          (λ _ w'. Removed now st.convo_id did w.store w'.store)
          (λ _ w'. w'.store ≡ w.store)
          (handle_remove_member st now did commit_bytes w)
  unfolding handle_remove_member
  handle_remove_member-Removed did commit_bytes =
      After-bind (transaction _ _ (remove_member_tx st now did commit_bytes))
        (λ stored.
          let st' : ActorState = announce stored.0 st in
          pure (
            record st' {
              current_epoch = stored.1;
              unread_counts = remove_count did st'.unread_counts;
            },
            stored.1,
          ))
        w (λ _ w'. Removed now st.convo_id did w.store w'.store) _ _
        (After-transaction _ _ _ w _ (remove_member_tx-Removed did commit_bytes)) (λ r w' h. h)
