-- ===== src/Actor/Messages/Returns.antt =====
-- Where no statement fails, sending a message returns.
use mls_ds.Prelude.{
  suc, ℕ, ◌<◌, ◌^◌, ◌&&◌, lt→ltb, String, ◌≡◌, refl, Bool, true, false, ◌||◌, Option, none, some,
  List, [], ◌∷◌, find, exists, str_eq, Bool-cases, Option-cases, inl, inr,
}
use mls_ds.Prelude.Results.{Result, ok}
use mls_ds.Sql.{World, NoFails, query, transaction, commit}
use mls_ds.Store.{Store, Conversation, Message}
use mls_ds.Store.Messages.{max_seq, same_value, conflicts, insert_message}
use mls_ds.Actor.{ActorState, ActorError}
use mls_ds.Actor.Messages.Outcome.{by_key}
use mls_ds.Actor.Messages.{
  stored, Sent, has_msg_id, has_key, identity, find_msg_id, find_key, sent_row, insert_sent,
  after_key, after_msg_id, counts_unread, is_full, count_unread, send_tx, after_tx,
  handle_send_message,
}

neither : (a b : Bool) → (a || b) ≡ false → (a ≡ false) × (b ≡ false)
neither false b h = (refl, h)
neither true b h = cc

find-none : (p : Message → Bool) (ms : List Message) → find p ms ≡ none → exists p ms ≡ false
unfolding find exists
find-none p [] h = refl
find-none p (m ∷ ms) h = elim (Bool-cases (p m)) [
  | inl t ↦ let k : some m ≡ none = (rw t at h) in cc
  | inr f ↦ rw f (find-none p ms (rw f at h))
]

any_of :
    (p q r : Message → Bool) (ms : List Message)
    → exists p ms ≡ false
    → exists q ms ≡ false
    → exists r ms ≡ false
    → exists (λ m. p m || q m || r m) ms ≡ false
unfolding exists
any_of p q r [] a b c = refl
any_of p q r (m ∷ ms) a b c =
    let (a0, a1) = neither (p m) (exists p ms) a in
    let (b0, b1) = neither (q m) (exists q ms) b in
    let (c0, c1) = neither (r m) (exists r ms) c in rw (a0, b0, c0) (any_of p q r ms a1 b1 c1)

by_key-none :
    (key : Option String) (ms : List Message)
    → by_key key ms ≡ none
    → exists (λ m. same_value key m.idempotency_key) ms ≡ false
unfolding exists
by_key-none none [] h = refl
by_key-none none (m ∷ ms) h = by_key-none none ms refl
by_key-none (some key) ms h = elim (Option-cases (find (has_key key) ms)) [
  | inl e ↦ find-none (has_key key) ms e
  | inr (m, e) ↦ let k : identity (some m) ≡ none = (rw e at h) in cc
]

-- A row that repeats no message and has an id of its own breaks no constraint.
insert_message-new :
    (convo : String) (now : ℕ) (sent : Sent) (id : String) (q : ℕ) (s : Store) (c : Conversation)
    → s.conversations convo ≡ some c
    → sent.padded_size < 2 ^ 31
    → exists (λ m. str_eq m.id id) s.messages ≡ false
    → exists (has_msg_id convo sent.msg_id) s.messages ≡ false
    → exists (λ m. same_value sent.idempotency_key m.idempotency_key) s.messages ≡ false
    → insert_message (sent_row convo now sent id q) s
      ≡ some (record s { messages = sent_row convo now sent id q ∷ s.messages })
unfolding insert_message
insert_message-new convo now sent id q s c found fits own fresh_msg fresh_key =
    let e : exists (conflicts (sent_row convo now sent id q)) s.messages ≡ false =
      any_of (λ m. str_eq m.id id) (has_msg_id convo sent.msg_id)
        (λ m. same_value sent.idempotency_key m.idempotency_key) s.messages own fresh_msg
        fresh_key in
    rw (lt→ltb sent.padded_size (2 ^ 31) fits, found, e) refl

-- The run of a handler gives a result.
abbrev pub IsReturned : {A : Type 0} → Result ActorError A × World Store → Type 0
IsReturned {A} r = (a : A) × (r.0 ≡ ok a)

module _ (st : ActorState) (now : ℕ) (sent : Sent) (w : World Store) (c : Conversation) where
  module _ (sound : NoFails w) (found : w.store.conversations st.convo_id ≡ some c)
      (own : exists (λ m. str_eq m.id (w.fresh w.drawn)) w.store.messages ≡ false)
      (fits : sent.padded_size < 2 ^ 31)
      (uncrowded : exists
          (λ m. counts_unread st.convo_id sent.sender_did m && is_full 1 m)
          w.store.members
        ≡ false) where
    by_msg_id :
        (m : Message)
        → find (has_msg_id st.convo_id sent.msg_id) w.store.messages ≡ some m
        → IsReturned (handle_send_message st now sent w)
    unfolding handle_send_message transaction query send_tx find_msg_id after_msg_id find_key
        after_key after_tx
    by_msg_id m hit = rw (sound w.step, sound (suc w.step), hit) ((st, (m.id, m.created_at)), refl)

    new_row : World Store → Message
    new_row u =
        sent_row st.convo_id now sent (u.fresh u.drawn) (suc (max_seq st.convo_id u.store.messages))

    inserts :
        (u : World Store)
        → NoFails u
        → insert_message (new_row u) u.store
          ≡ some (record u.store { messages = new_row u ∷ u.store.messages })
        → insert_sent st.convo_id now sent u ≡ (
          ok (commit (stored (u.fresh u.drawn) (suc (max_seq st.convo_id u.store.messages)))),
          record u {
            store = record u.store { messages = new_row u ∷ u.store.messages };
            step = suc (suc u.step);
            drawn = suc u.drawn;
          },
        )
    unfolding insert_sent query new_row
    inserts u sound' inserted = rw (sound' u.step, sound' (suc u.step), inserted) refl

    found_key :
        (key : Option String) (u : World Store)
        → NoFails u
        → (n : ℕ) × (find_key key u ≡ (ok (by_key key u.store.messages), record u { step = n }))
    unfolding find_key query
    found_key none u sound' = (u.step, refl)
    found_key (some key) u sound' = (suc u.step, rw (sound' u.step) refl)

    searched : World Store
    searched = record w { step = suc (suc w.step) }

    by_the_key :
        (id : String) (at n : ℕ)
        → find (has_msg_id st.convo_id sent.msg_id) w.store.messages ≡ none
        → find_key sent.idempotency_key searched ≡ (ok (some (id, at)), record w { step = n })
        → IsReturned (handle_send_message st now sent w)
    unfolding handle_send_message transaction query send_tx find_msg_id after_msg_id after_key
        after_tx searched
    by_the_key id at n miss hit =
        rw (sound w.step, sound (suc w.step), miss, hit) ((st, (id, at)), refl)

    as_new :
        (n : ℕ)
        → find (has_msg_id st.convo_id sent.msg_id) w.store.messages ≡ none
        → find_key sent.idempotency_key searched ≡ (ok none, record w { step = n })
        → insert_message (new_row w) w.store
          ≡ some (record w.store { messages = new_row w ∷ w.store.messages })
        → IsReturned (handle_send_message st now sent w)
    unfolding handle_send_message transaction query send_tx find_msg_id after_msg_id after_key
        after_tx searched new_row count_unread
    as_new n miss free inserted =
        rw
          (
            sound w.step,
            sound (suc w.step),
            miss,
            free,
            inserts (record w { step = n }) sound inserted,
            sound (suc (suc n)),
            sound (suc (suc (suc n))),
            uncrowded,
          )
          ((_, (w.fresh w.drawn, now)), refl)

    unkeyed :
        (o : Option (String × ℕ)) (n : ℕ)
        → find (has_msg_id st.convo_id sent.msg_id) w.store.messages ≡ none
        → by_key sent.idempotency_key w.store.messages ≡ o
        → find_key sent.idempotency_key searched ≡ (ok o, record w { step = n })
        → IsReturned (handle_send_message st now sent w)
    unfolding new_row
    unkeyed (some (id, at)) n miss same free = by_the_key id at n miss free
    unkeyed none n miss same free = as_new n miss free (
        insert_message-new st.convo_id now sent _ _ w.store c found fits own
          (find-none (has_msg_id st.convo_id sent.msg_id) w.store.messages miss)
          (by_key-none sent.idempotency_key w.store.messages same))

    -- Where no statement fails, the conversation exists, the drawn id is no message's yet, the padded
    -- size and the raised unread counts are below 2 ^ 31, sending a message returns an id and a time.
    pub handle_send_message-IsReturned : IsReturned (handle_send_message st now sent w)
    unfolding searched
    handle_send_message-IsReturned =
        let (n, free) = found_key sent.idempotency_key searched sound in
        elim (Option-cases (find (has_msg_id st.convo_id sent.msg_id) w.store.messages)) [
          | inl miss ↦ unkeyed (by_key sent.idempotency_key w.store.messages) n miss refl free
          | inr (m, hit) ↦ by_msg_id m hit
        ]
