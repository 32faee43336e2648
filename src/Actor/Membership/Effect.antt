-- ===== src/Actor/Membership/Effect.antt =====
-- What adding and removing members does to the tables, on every outcome of every statement.
use mathlib.Core.Path.{ap₂}
use mls_ds.Prelude.{ℕ, suc, String, ◌≡◌, refl, sym, ap, ◌∙◌, Option, none, some, List, ◌∷◌, arith}
use mls_ds.Prelude.Results.{ok_or}
use mls_ds.Sql.{World, query, Ensures, Ensures-query, Ensures-bind, lift, pure, ◌>>=◌, ◌>>◌}
use mls_ds.Store.{
  Store, Conversation, Message, Member, put_conversation, next_epoch, done, insert_member,
}
use mls_ds.Store.Messages.{max_seq, insert_message}
use mls_ds.Actor.{context, epoch_conflict, ActorState}
use mls_ds.Actor.Membership.{
  insert_commit, advance_and_insert, advance_row, try_advance_conversation_epoch, commit_row,
  store_commit,
}

-- A commit finds the conversation at the actor's epoch, moves it to the next one and stores the commit
-- as the newest message; without a commit neither table changes. `n` is the epoch after that.
pub record Commits (st : ActorState) (now : ℕ) (bytes : List ℕ) (s : Store) (n : ℕ) (s' : Store)
    : Type 0 where
  pub row : Conversation
  pub msg_id : String
  pub found : s.conversations st.convo_id ≡ some row
  pub current : row.current_epoch ≡ st.current_epoch
  pub advances : next_epoch st.current_epoch ≡ some n
  pub conversations :
      s'.conversations
      ≡ (put_conversation s st.convo_id
          (record row { current_epoch = n; updated_at = now })).conversations
  pub messages :
      s'.messages
      ≡ commit_row st now msg_id n (suc (max_seq st.convo_id s.messages)) bytes ∷ s.messages

pub record Keeps (st : ActorState) (s : Store) (n : ℕ) (s' : Store) : Type 0 where
  pub epoch : n ≡ st.current_epoch
  pub conversations : s'.conversations ≡ s.conversations
  pub messages : s'.messages ≡ s.messages

abbrev pub CommitEffect : ActorState → ℕ → Option (List ℕ) → Store → ℕ → Store → Type 0
CommitEffect st now none s n s' = Keeps st s n s'
CommitEffect st now (some bytes) s n s' = Commits st now bytes s n s'

-- The statements that follow leave the two tables alone.
pub record Frame (s s' : Store) : Type 0 where
  pub conversations : s'.conversations ≡ s.conversations
  pub messages : s'.messages ≡ s.messages

pub Frame-refl : (s : Store) → Frame s s
Frame-refl s = record { conversations = refl; messages = refl }

pub Frame-trans : {s t u : Store} → Frame s t → Frame t u → Frame s u
Frame-trans f g = record {
  conversations = g.conversations ∙ f.conversations;
  messages = g.messages ∙ f.messages;
}

pub CommitEffect-Frame :
    (st : ActorState) (now : ℕ) (bytes : Option (List ℕ)) (s : Store) (n : ℕ) {t u : Store}
    → CommitEffect st now bytes s n t
    → Frame t u
    → CommitEffect st now bytes s n u
CommitEffect-Frame st now none s n k f = record {
  epoch = k.epoch;
  conversations = f.conversations ∙ k.conversations;
  messages = f.messages ∙ k.messages;
}
CommitEffect-Frame st now (some bytes) s n k f = record {
  row = k.row;
  msg_id = k.msg_id;
  found = k.found;
  current = k.current;
  advances = k.advances;
  conversations = f.conversations ∙ k.conversations;
  messages = f.messages ∙ k.messages;
}

pub insert_message-some :
    (m : Message) (s s' : Store)
    → insert_message m s ≡ some s'
    → s' ≡ record s { messages = m ∷ s.messages }
unfolding insert_message
insert_message-some m s s' h = ground arith

pub insert_member-Frame : (m : Member) (s s' : Store) → insert_member m s ≡ some s' → Frame s s'
unfolding insert_member
insert_member-Frame m s s' h = ground arith

pub done-some : (o : Option Store) (u : Unit {0}) (s : Store) → done o ≡ some (u, s) → o ≡ some s
done-some none u s h = absurd (cc)
done-some (some t) u s h = cc

-- The answer of the compare-and-set on the epoch.
abbrev Advance : ℕ → String → ℕ → Store → Option ℕ → Store → Type 0
Advance now convo expected s none s' = s' ≡ s
Advance now convo expected s (some n) s' =
    (row : Conversation) × (s.conversations convo ≡ some row)
    × (row.current_epoch ≡ expected)
    × (next_epoch expected ≡ some n)
    × (s' ≡ put_conversation s convo (record row { current_epoch = n; updated_at = now }))

pub advance_row-Advance :
    (now : ℕ) (convo : String) (expected : ℕ) (o : Option Conversation) (s s' : Store)
    (r : Option ℕ)
    → s.conversations convo ≡ o
    → advance_row now convo expected o s ≡ some (r, s')
    → Advance now convo expected s r s'
advance_row-Advance now convo expected none s s' none found h = ground arith
advance_row-Advance now convo expected none s s' (some n) found h = absurd (ground arith)
advance_row-Advance now convo expected (some c) s s' none found h = ground arith
advance_row-Advance now convo expected (some c) s s' (some n) found h =
    (c, found, ground arith, ground arith, ground arith)

module _ (st : ActorState) (now : ℕ) (bytes : List ℕ) where
  -- The inserts, in the tables `t` that the new epoch left of `s`.
  insert_commit-Effect :
      (s : Store) (id : String) (n : ℕ) (w : World Store)
      → Advance now st.convo_id st.current_epoch s (some n) w.store
      → Ensures (λ r w'. Commits st now bytes s r.1 w'.store) (insert_commit st now bytes id n w)
  unfolding insert_commit
  insert_commit-Effect s id n w (row, found, current, advances, tables) =
      Ensures-bind (query _ (λ t. some (suc (max_seq st.convo_id t.messages), t)))
        (λ seq.
          query (context "Failed to insert commit message")
            (λ t. done (insert_message (commit_row st now id n seq bytes) t))
          >> pure (some id, n))
        w (λ seq w'. (seq ≡ suc (max_seq st.convo_id s.messages)) × (w'.store ≡ w.store)) _
        (Ensures-query _ _ w _ (λ a t same.
          let eqs : (suc (max_seq st.convo_id w.store.messages) ≡ a) × (w.store ≡ t) = (cc, cc) in
          let ms : w.store.messages ≡ s.messages = ap (λ (x : Store). x.messages) tables in
          (sym eqs.0 ∙ ap (λ x. suc (max_seq st.convo_id x)) ms, sym eqs.1)))
        (λ seq w' h.
          Ensures-bind
            (query (context "Failed to insert commit message")
              (λ t. done (insert_message (commit_row st now id n seq bytes) t)))
            (λ _. pure (some id, n)) w'
            (λ _ v. insert_message (commit_row st now id n seq bytes) w'.store ≡ some v.store) _
            (Ensures-query _ _ w' _ (λ a t same. done-some _ a t same))
            (λ _ v inserted.
              let seen = insert_message-some _ w'.store v.store inserted in
              let tables' : w'.store
                  ≡ put_conversation s st.convo_id
                      (record row { current_epoch = n; updated_at = now }) =
                h.1 ∙ tables in
              record {
                row = row;
                msg_id = id;
                found = found;
                current = current;
                advances = advances;
                conversations =
                    ap (λ (x : Store). x.conversations)
                      (seen
                        ∙ ap
                            (λ (x : Store). record x {
                              messages = commit_row st now id n seq bytes ∷ x.messages;
                            })
                            tables');
                messages =
                    ap (λ (x : Store). x.messages) seen
                    ∙ ap₂ (λ k (x : Store). commit_row st now id n k bytes ∷ x.messages) h.0
                        tables';
              }))

  advance_and_insert-Effect :
      (id : String) (w : World Store)
      → Ensures
          (λ r w'. Commits st now bytes w.store r.1 w'.store)
          (advance_and_insert st now bytes id w)
  unfolding advance_and_insert
  advance_and_insert-Effect id w =
      Ensures-bind (try_advance_conversation_epoch now st.convo_id st.current_epoch)
        (λ advanced.
          lift (ok_or advanced (epoch_conflict st.convo_id st.current_epoch))
          >>= insert_commit st now bytes id)
        w (λ r w'. Advance now st.convo_id st.current_epoch w.store r w'.store) _
        (unfold try_advance_conversation_epoch in
          Ensures-query _ _ w _ (λ r t same.
            advance_row-Advance now st.convo_id st.current_epoch _ w.store t r refl same))
        after
    where
      after :
          (r : Option ℕ) (w' : World Store)
          → Advance now st.convo_id st.current_epoch w.store r w'.store
          → Ensures
              (λ r w''. Commits st now bytes w.store r.1 w''.store)
              ((lift (ok_or r (epoch_conflict st.convo_id st.current_epoch))
                  >>= insert_commit st now bytes id)
                w')
      after none w' h = tt
      after (some n) w' h = insert_commit-Effect w.store id n w' h

pub store_commit-Effect :
    (st : ActorState) (now : ℕ) (bytes : Option (List ℕ)) (w : World Store)
    → Ensures (λ r w'. CommitEffect st now bytes w.store r.1 w'.store) (store_commit st now bytes w)
unfolding store_commit
store_commit-Effect st now none w = record { epoch = refl; conversations = refl; messages = refl }
store_commit-Effect st now (some bytes) w =
    advance_and_insert-Effect st now bytes (w.fresh w.drawn) _
