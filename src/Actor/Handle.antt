-- ===== src/Actor/Handle.antt =====
-- actors/messages.rs and the two methods of `impl Actor` in actors/conversation.rs. A reply is what goes
-- into the message's channel; a handler that fails leaves the actor's state as it was.
use mls_ds.Prelude.{ℕ, String, Option, none, some, List, [], ◌∷◌}
use mls_ds.Prelude.Results.{Result, ok, err}
use mls_ds.Sql.{World, query, pure, ◌>>=◌}
use mls_ds.Store.{Store, Conversation}
use mls_ds.Actor.{ActorError, context, ActorState, Codec, KeyPackageHashEntry, Handler}
use mls_ds.Actor.Membership.{handle_add_members, handle_remove_member}
use mls_ds.Actor.Messages.{Sent, handle_send_message}
use mls_ds.Actor.Unread.{handle_increment_unread, handle_reset_unread}

pub data ConvoMessage : Type 0 where
  add_members :
      List String
      → Option (List ℕ)
      → Option String
      → Option (List KeyPackageHashEntry)
      → ConvoMessage
  remove_member : String → Option (List ℕ) → ConvoMessage
  send_message : Sent → ConvoMessage
  increment_unread : String → ConvoMessage
  reset_unread : String → ConvoMessage
  get_epoch : ConvoMessage
  shutdown : ConvoMessage

pub data Reply : Type 0 where
  epoch : Result ActorError ℕ → Reply
  message : Result ActorError (String × ℕ) → Reply
  acknowledged : Result ActorError (Unit {0}) → Reply
  nothing : Reply

abbrev pub epoch_column : Option Conversation → Option ℕ
epoch_column none = none
epoch_column (some c) = some c.current_epoch

abbrev pub with_store : Store → Option ℕ → Option (ℕ × Store)
with_store s none = none
with_store s (some e) = some (e, s)

-- `pre_start`, with `get_current_epoch` of db.rs: no row is an error.
unfoldable pub pre_start : String → Handler ActorState
pre_start convo = do
  current_epoch ←
      query (context "Failed to get current epoch")
        (λ s. with_store s (epoch_column (s.conversations convo)))
  pure (record { convo_id = convo; current_epoch = current_epoch; unread_counts = []; jobs = [] })

abbrev pub Handled : Type 0
Handled = Reply × ActorState × World Store

abbrev pub replied :
    {A : Type 0}
    → (Result ActorError A → Reply)
    → ActorState
    → Result ActorError (ActorState × A) × World Store
    → Handled
replied f st (ok (st', a), w) = (f (ok a), st', w)
replied f st (err e, w) = (f (err e), st, w)

abbrev pub settled :
    (Result ActorError (Unit {0}) → Reply)
    → ActorState
    → Result ActorError ActorState × World Store
    → Handled
settled f st (ok st', w) = (f (ok tt), st', w)
settled f st (err e, w) = (f (err e), st, w)

-- `handle`; `now` is the clock's reading when the handler starts.
unfoldable pub handle : Codec → ActorState → World Store → ℕ → ConvoMessage → Handled
handle codec st w now (add_members dids commit welcome hashes) =
    replied epoch st (handle_add_members codec st now dids commit welcome hashes w)
handle codec st w now (remove_member did commit) =
    replied epoch st (handle_remove_member st now did commit w)
handle codec st w now (send_message sent) = replied message st (handle_send_message st now sent w)
handle codec st w now (increment_unread sender) =
    settled (λ _. nothing) st (handle_increment_unread st sender w)
handle codec st w now (reset_unread user) = settled acknowledged st (handle_reset_unread st user w)
handle codec st w now get_epoch = (epoch (ok st.current_epoch), st, w)
handle codec st w now shutdown = (nothing, st, w)

-- The mailbox: one message after another, each with the time at which it is taken.
unfoldable pub run :
    Codec → ActorState → World Store → List (ℕ × ConvoMessage) → ActorState × World Store
run codec st w [] = (st, w)
run codec st w ((now, m) ∷ ms) =
    let (reply, st', w') = handle codec st w now m in run codec st' w' ms

-- What the senders of the messages are told.
unfoldable pub replies : Codec → ActorState → World Store → List (ℕ × ConvoMessage) → List Reply
replies codec st w [] = []
replies codec st w ((now, m) ∷ ms) =
    let r = handle codec st w now m in r.0 ∷ replies codec r.1 r.2 ms
