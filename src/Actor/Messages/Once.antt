-- ===== src/Actor/Messages/Once.antt =====
-- Sending again: a repeated message is recognised, and what a failure leaves behind.
use mathlib.Core.Path.{ap₂}
use mls_ds.Prelude.{
  ℕ, String, ◌≡◌, refl, sym, ap, subst, ◌∙◌, inl, inr, Bool, true, false, ◌||◌, Option, none, some,
  List, [], ◌∷◌, ◌++◌, All, All-map, arith, find, eq_refl,
}
use mls_ds.Prelude.Results.{ok}
use mls_ds.Sql.{World, After, After-mono}
use mls_ds.Store.{Store, Message}
use mls_ds.Actor.{ActorError, ActorState, SideEffectJob, try_send}
use mls_ds.Store.Messages.{same_value}
use mls_ds.Actor.Messages.{Sent, has_msg_id, has_key, identity, handle_send_message}
use mls_ds.Actor.Messages.Outcome.{
  earlier, or_key, by_key, row_on, SendResult, SendFailure, handle_send_message-Outcome,
}

pub convo_id-try_send :
    (j : SideEffectJob) (st : ActorState) → (try_send j st).convo_id ≡ st.convo_id
unfolding try_send
convo_id-try_send j st = ground arith

pub current_epoch-try_send :
    (j : SideEffectJob) (st : ActorState) → (try_send j st).current_epoch ≡ st.current_epoch
unfolding try_send
current_epoch-try_send j st = ground arith

-- A row that was just stored is the one that a repetition finds.
earlier-row_on :
    (convo : String) (now : ℕ) (sent : Sent) (ms : List Message) (id : String)
    → earlier convo sent (row_on convo now sent ms id ∷ ms) ≡ some (id, now)
unfolding find
earlier-row_on convo now sent ms id = rw (eq_refl convo, eq_refl sent.msg_id)

-- A row with the `msg_id` in the conversation, or with the idempotency key.
abbrev pub repeats : String → Sent → Message → Bool
repeats convo sent m =
    has_msg_id convo sent.msg_id m || same_value sent.idempotency_key m.idempotency_key

find-skips :
    (p : Message → Bool) (more ms : List Message)
    → All (λ m. p m ≡ false) more
    → find p (more ++ ms) ≡ find p ms
unfolding find
find-skips p [] ms h = refl
find-skips p (m ∷ more) ms (h, hs) = rw h (find-skips p more ms hs)

by_key-skips :
    (key : Option String) (more ms : List Message)
    → All (λ m. same_value key m.idempotency_key ≡ false) more
    → by_key key (more ++ ms) ≡ by_key key ms
by_key-skips none more ms h = refl
by_key-skips (some key) more ms h = ap identity (find-skips (has_key key) more ms h)

neither : (a b : Bool) → (a || b) ≡ false → (a ≡ false) × (b ≡ false)
neither false b h = (refl, h)
neither true b h = cc

earlier-skips :
    (convo : String) (sent : Sent) (more ms : List Message)
    → All (λ m. repeats convo sent m ≡ false) more
    → earlier convo sent (more ++ ms) ≡ earlier convo sent ms
earlier-skips convo sent more ms h =
    ap (λ o. or_key (identity o) sent.idempotency_key (more ++ ms))
      (find-skips (has_msg_id convo sent.msg_id) more ms
        (All-map _ _ more (λ m k. (neither (has_msg_id convo sent.msg_id m) _ k).0) h))
    ∙ go (identity (find (has_msg_id convo sent.msg_id) ms))
  where
    go :
        (o : Option (String × ℕ))
        → or_key o sent.idempotency_key (more ++ ms) ≡ or_key o sent.idempotency_key ms
    go (some r) = refl
    go none =
        by_key-skips sent.idempotency_key more ms
          (All-map _ _ more (λ m k. (neither (has_msg_id convo sent.msg_id m) _ k).1) h)

-- Both sendings below are of one message, the second at any later time and with any fates.
module _ (st : ActorState) (later : ℕ) (sent : Sent) (w : World Store) where
  -- The tables hold the message already: it is answered from them.
  repeated :
      (r : String × ℕ)
      → earlier st.convo_id sent w.store.messages ≡ some r
      → After
          (λ x w'. (x.1 ≡ r) × (x.0 ≡ st) × (w'.store ≡ w.store))
          (λ _ w'. w'.store ≡ w.store)
          (handle_send_message st later sent w)
  repeated r found =
      After-mono (handle_send_message st later sent w) (SendResult st later sent w.store) _
        (λ _ w'. SendFailure st later sent w.store w') _ result failure
        (handle_send_message-Outcome st later sent w)
    where
      result :
          (x : ActorState × (String × ℕ)) (w' : World Store)
          → SendResult st later sent w.store x w'
          → (x.1 ≡ r) × (x.0 ≡ st) × (w'.store ≡ w.store)
      result x w' (inl (e, same, kept)) = (ground (arith, sym e ∙ found), kept, same)
      result x w' (inr (e, at, tables, jobs)) = absurd (ground (arith, sym e ∙ found))

      failure :
          (e : ActorError) (w' : World Store)
          → SendFailure st later sent w.store w'
          → w'.store ≡ w.store
      failure e w' (inl same) = same
      failure e w' (inr (id, e', tables)) = absurd (ground (arith, sym e' ∙ found))

module _ (st : ActorState) (now later : ℕ) (sent : Sent) (w : World Store) where
  returned-earlier :
      (x : ActorState × (String × ℕ)) (w' : World Store)
      → SendResult st now sent w.store x w'
      → (earlier st.convo_id sent w'.store.messages ≡ some x.1) × (x.0.convo_id ≡ st.convo_id)
  returned-earlier x w' (inl (e, same, kept)) = (
    ap (λ (s : Store). earlier st.convo_id sent s.messages) same ∙ e,
    ap (λ (s : ActorState). s.convo_id) kept,
  )
  returned-earlier x w' (inr (e, at, tables, jobs)) = (
    ap (λ (s : Store). earlier st.convo_id sent s.messages) tables
        ∙ earlier-row_on st.convo_id now sent w.store.messages x.1.0
        ∙ ap (λ t. some (x.1.0, t)) (sym at),
    ap (λ (s : ActorState). s.convo_id) jobs ∙ convo_id-try_send _ st,
  )

  -- A message that was sent and is sent again, by the actor of this conversation in whatever state, at
  -- any time and with any fates of the statements, gets the same id and time (or an error), and neither
  -- the tables nor the worker's jobs change; where the messages are those that the first sending left
  -- and new ones that have neither its `msg_id` in this conversation nor its idempotency key.
  pub handle_send_message-once :
      (st' st'' : ActorState) (r : String × ℕ) (w' v : World Store) (more : List Message)
      → handle_send_message st now sent w ≡ (ok (st', r), w')
      → st''.convo_id ≡ st.convo_id
      → v.store.messages ≡ more ++ w'.store.messages
      → All (λ m. repeats st.convo_id sent m ≡ false) more
      → After
          (λ x u. (x.1 ≡ r) × (x.0 ≡ st'') × (u.store ≡ v.store))
          (λ _ u. u.store ≡ v.store)
          (handle_send_message st'' later sent v)
  handle_send_message-once st' st'' r w' v more run here grown others =
      let (found, convo) =
        returned-earlier (st', r) w'
          (subst (After (SendResult st now sent w.store) (λ _ u. SendFailure st now sent w.store u))
            run (handle_send_message-Outcome st now sent w)) in
      repeated st'' later sent v r (
        ap₂ (λ c (ms : List Message). earlier c sent ms) here grown
        ∙ earlier-skips st.convo_id sent more w'.store.messages others
        ∙ found)
