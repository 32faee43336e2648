-- ===== src/Actor/Messages/Outcome.antt =====
-- The outcomes of `handle_send_message`: a message is stored once, however often it is sent.
use mathlib.Core.Path.{ap₂}
use mls_ds.Prelude.{
  ℕ, suc, String, ◌≡◌, refl, sym, ap, ◌∙◌, ◌⊎◌, inl, inr, false, Option, none, some, List, ◌∷◌,
  find, arith,
}
use mls_ds.Sql.{
  World, query, transaction, Ending, commit, After, Ensures, Ensures-query, Ensures-bind,
  After-bind, After-query, After-mono, After-transaction, Ends, new_id, pure, next, ◌>>=◌, ◌>>◌,
}
use mls_ds.Store.{Store, Message, done}
use mls_ds.Store.Messages.{max_seq, insert_message}
use mls_ds.Actor.{context, ActorState, Handler, SideEffectJob, notify_new_message, try_send}
use mls_ds.Actor.Membership.Effect.{insert_message-some, done-some}
use mls_ds.Actor.Messages.{
  Sent, has_msg_id, has_key, identity, find_msg_id, find_key, sent_row, Stored, duplicate, stored,
  insert_sent, after_key, after_msg_id, send_tx, bump_unread, count_unread, after_tx,
  handle_send_message,
}

-- The stored message that a sending repeats: by its `msg_id`, or else by its idempotency key.
abbrev pub by_key : Option String → List Message → Option (String × ℕ)
by_key none ms = none
by_key (some key) ms = identity (find (has_key key) ms)

abbrev pub or_key : Option (String × ℕ) → Option String → List Message → Option (String × ℕ)
or_key (some r) key ms = some r
or_key none key ms = by_key key ms

abbrev pub earlier : String → Sent → List Message → Option (String × ℕ)
earlier convo sent ms =
    or_key (identity (find (has_msg_id convo sent.msg_id) ms)) sent.idempotency_key ms

-- The row that a sending leaves on top of the messages `ms`.
abbrev pub row_on : String → ℕ → Sent → List Message → String → Message
row_on convo now sent ms id = sent_row convo now sent id (suc (max_seq convo ms))

-- What the transaction makes of the tables `s`.
abbrev pub TxEffect : String → ℕ → Sent → Store → Stored → Store → Type 0
TxEffect convo now sent s (duplicate id at) s' =
    (earlier convo sent s.messages ≡ some (id, at)) × (s' ≡ s)
TxEffect convo now sent s (stored id seq) s' =
    (earlier convo sent s.messages ≡ none)
    × (seq ≡ suc (max_seq convo s.messages))
    × (s' ≡ record s { messages = row_on convo now sent s.messages id ∷ s.messages })

find_key-Effect :
    (key : Option String) (w : World Store)
    → Ensures (λ o w'. (by_key key w.store.messages ≡ o) × (w'.store ≡ w.store)) (find_key key w)
unfolding find_key
find_key-Effect none w = (refl, refl)
find_key-Effect (some key) w = Ensures-query _ _ w _ (λ a t same.
    let e : (identity (find (has_key key) w.store.messages) ≡ a) × (w.store ≡ t) = (cc, cc) in
    (e.0, sym e.1))

find_msg_id-Effect :
    (convo msg_id : String) (w : World Store)
    → Ensures
        (λ o w'.
          (identity (find (has_msg_id convo msg_id) w.store.messages) ≡ o) × (w'.store ≡ w.store))
        (find_msg_id convo msg_id w)
unfolding find_msg_id
find_msg_id-Effect convo msg_id w = Ensures-query _ _ w _ (λ a t same.
    let e : (identity (find (has_msg_id convo msg_id) w.store.messages) ≡ a) × (w.store ≡ t) =
      (cc, cc) in
    (e.0, sym e.1))

module _ (convo : String) (now : ℕ) (sent : Sent) (s : Store) where
  abbrev Finishes : Ending Stored → World Store → Type 0
  Finishes = Ends (λ r w'. TxEffect convo now sent s r w'.store) s

  insert_sent-Effect :
      (w : World Store)
      → earlier convo sent s.messages ≡ none
      → w.store ≡ s
      → Ensures Finishes (insert_sent convo now sent w)
  unfolding insert_sent
  insert_sent-Effect w new same =
      Ensures-bind (query _ (λ t. some (suc (max_seq convo t.messages), t)))
        (λ seq. new_id >>= λ row_id.
          query (context "Failed to insert message")
            (λ t. done (insert_message (sent_row convo now sent row_id seq) t))
          >> pure (commit (stored row_id seq)))
        w (λ seq w'. (seq ≡ suc (max_seq convo s.messages)) × (w'.store ≡ s)) _
        (Ensures-query _ _ w _ (λ a t read.
          let e : (suc (max_seq convo w.store.messages) ≡ a) × (w.store ≡ t) = (cc, cc) in
          (sym e.0 ∙ ap (λ (x : Store). suc (max_seq convo x.messages)) same, sym e.1 ∙ same)))
        (λ seq u h.
          Ensures-bind
            (query (context "Failed to insert message")
              (λ t. done (insert_message (sent_row convo now sent (u.fresh u.drawn) seq) t)))
            (λ _. pure (commit (stored (u.fresh u.drawn) seq))) _
            (λ _ v.
              insert_message (sent_row convo now sent (u.fresh u.drawn) seq) u.store ≡ some v.store)
            _ (Ensures-query _ _ _ _ (λ a t inserted. done-some _ a t inserted))
            (λ _ v inserted. (
              new,
              h.0,
              insert_message-some _ u.store v.store inserted
                  ∙ ap₂
                      (λ k (x : Store). record x {
                        messages = sent_row convo now sent (u.fresh u.drawn) k ∷ x.messages;
                      })
                      h.0 h.1,
            )))

  after_key-Effect :
      (o : Option (String × ℕ)) (w : World Store)
      → earlier convo sent s.messages ≡ o
      → w.store ≡ s
      → Ensures Finishes (after_key convo now sent o w)
  unfolding after_key
  after_key-Effect none w e same = insert_sent-Effect w e same
  after_key-Effect (some (id, at)) w e same = (e, refl)

  after_msg_id-Effect :
      (o : Option (String × ℕ)) (w : World Store)
      → identity (find (has_msg_id convo sent.msg_id) s.messages) ≡ o
      → w.store ≡ s
      → Ensures Finishes (after_msg_id convo now sent o w)
  unfolding after_msg_id
  after_msg_id-Effect (some (id, at)) w e same = (rw e refl, refl)
  after_msg_id-Effect none w e same =
      Ensures-bind (find_key sent.idempotency_key) (after_key convo now sent) w
        (λ o w'. (by_key sent.idempotency_key w.store.messages ≡ o) × (w'.store ≡ w.store)) _
        (find_key-Effect sent.idempotency_key w)
        (λ o w' h.
          after_key-Effect o w'
            (rw e (ap (λ (x : Store). by_key sent.idempotency_key x.messages) (sym same) ∙ h.0))
            (h.1 ∙ same))

  send_tx-Effect : (w : World Store) → w.store ≡ s → Ensures Finishes (send_tx convo now sent w)
  unfolding send_tx
  send_tx-Effect w same =
      Ensures-bind (find_msg_id convo sent.msg_id) (after_msg_id convo now sent) w _ _
        (find_msg_id-Effect convo sent.msg_id w)
        (λ o w' h.
          after_msg_id-Effect o w'
            (ap (λ (x : Store). identity (find (has_msg_id convo sent.msg_id) x.messages))
                (sym same)
              ∙ h.0)
            (h.1 ∙ same))

abbrev pub with_row : Store → Message → Store
with_row s m = record s { messages = m ∷ s.messages }

-- A sending that returns either repeats a stored message and changes nothing, or stores one row on
-- top, counts it for the other users and hands it to the worker.
abbrev pub SendResult :
    ActorState → ℕ → Sent → Store → ActorState × (String × ℕ) → World Store → Type 0
SendResult st now sent s (st', (id, at)) w' =
    ((earlier st.convo_id sent s.messages ≡ some (id, at)) × (w'.store ≡ s) × (st' ≡ st))
    ⊎ ((earlier st.convo_id sent s.messages ≡ none)
        × (at ≡ now)
        × (w'.store ≡ record s {
          messages = row_on st.convo_id now sent s.messages id ∷ s.messages;
          members = bump_unread st.convo_id sent.sender_did s.members;
        })
        × (st'
            ≡ try_send
                (notify_new_message sent.msg_id sent.sender_did sent.ciphertext
                  (suc (max_seq st.convo_id s.messages)) sent.epoch false)
                st))

-- One that fails has changed nothing, or has stored its row without counting it.
abbrev pub SendFailure : ActorState → ℕ → Sent → Store → World Store → Type 0
SendFailure st now sent s w' =
    (w'.store ≡ s)
    ⊎ ((id : String) × (earlier st.convo_id sent s.messages ≡ none)
        × (w'.store ≡ with_row s (row_on st.convo_id now sent s.messages id)))

count_unread-some :
    (convo sender : String) (s t : Store) (a : Unit {0})
    → count_unread convo sender s ≡ some (a, t)
    → t ≡ record s { members = bump_unread convo sender s.members }
unfolding count_unread
count_unread-some convo sender s t a h = ground arith

module _ (st : ActorState) (now : ℕ) (sent : Sent) (w : World Store) where
  after_tx-Result :
      (r : Stored) (u : World Store)
      → TxEffect st.convo_id now sent w.store r u.store
      → After
          (SendResult st now sent w.store)
          (λ _ w'. SendFailure st now sent w.store w')
          (after_tx st now sent r u)
  unfolding after_tx
  after_tx-Result (duplicate id at) u h = inl (h.0, h.1, refl)
  after_tx-Result (stored id seq) u h =
      After-bind
        (query (context "Failed to update unread counts")
          (count_unread st.convo_id sent.sender_did))
        (λ _. pure (try_send (job seq) st, (id, now))) u
        (λ _ v.
          v.store
          ≡ record u.store { members = bump_unread st.convo_id sent.sender_did u.store.members })
        _ _
        (After-query _ _ u _ _ (inr (id, h.0, h.2))
          (λ a t same. count_unread-some st.convo_id sent.sender_did u.store t a same))
        (λ _ v e. inr (h.0, refl, e ∙ ap counted h.2, ap (λ k. try_send (job k) st) h.1))
    where
      job : ℕ → SideEffectJob
      job k = notify_new_message sent.msg_id sent.sender_did sent.ciphertext k sent.epoch false

      counted : Store → Store
      counted s = record s { members = bump_unread st.convo_id sent.sender_did s.members }

  abbrev pub in_tx : Handler Stored
  in_tx =
      transaction (context "Failed to begin transaction") (context "Failed to commit transaction")
        (send_tx st.convo_id now sent)

  pub in_tx-Effect :
      After
        (λ r u. TxEffect st.convo_id now sent w.store r u.store)
        (λ _ w'. SendFailure st now sent w.store w')
        (in_tx w)
  in_tx-Effect =
      After-mono (in_tx w) (λ r u. TxEffect st.convo_id now sent w.store r u.store) _
        (λ _ w'. w'.store ≡ w.store) _ (λ r u h. h) (λ e u h. inl h)
        (After-transaction (context "Failed to begin transaction")
          (context "Failed to commit transaction") (send_tx st.convo_id now sent) w
          (λ r u. TxEffect st.convo_id now sent w.store r u.store)
          (send_tx-Effect st.convo_id now sent w.store (next w w.store) refl))

  -- Sending a message either answers with the id and time of an earlier message that it repeats, and
  -- changes neither the tables nor the actor; or stores one row, with the next sequence number, counts
  -- it as unread and hands one job to the worker; or returns an error, and then the tables are as they
  -- were or have the row of a message that was new. So on every fate of every statement.
  pub handle_send_message-Outcome :
      After
        (SendResult st now sent w.store)
        (λ _ w'. SendFailure st now sent w.store w')
        (handle_send_message st now sent w)
  unfolding handle_send_message
  handle_send_message-Outcome =
      After-bind in_tx (after_tx st now sent) w
        (λ r u. TxEffect st.convo_id now sent w.store r u.store) _ _ in_tx-Effect after_tx-Result
