-- ===== src/Actor/Invariant/Run.antt =====
-- Every message that an actor takes keeps it consistent with the tables.
use mls_ds.Prelude.{ℕ, ◌≡◌, refl, ap, ◌∙◌, inl, inr, Option, none, some, String, List, [], ◌∷◌}
use mls_ds.Prelude.Results.{Result, ok, err}
use mls_ds.Sql.{World, After, After-mono}
use mls_ds.Store.{Store}
use mls_ds.Actor.{ActorError, ActorState, Codec}
use mls_ds.Actor.Membership.{handle_add_members, handle_remove_member}
use mls_ds.Actor.Messages.{handle_send_message}
use mls_ds.Actor.Unread.{handle_increment_unread, handle_reset_unread}
use mls_ds.Actor.Membership.Effect.{Frame}
use mls_ds.Actor.Membership.Commits.{
  CommitOutcome, handle_add_members-CommitOutcome, handle_remove_member-CommitOutcome,
}
use mls_ds.Actor.Messages.{Sent}
use mls_ds.Actor.Messages.Outcome.{SendResult, SendFailure, handle_send_message-Outcome}
use mls_ds.Actor.Messages.Once.{convo_id-try_send, current_epoch-try_send}
use mls_ds.Actor.Unread.Frames.{
  Unmoved, handle_increment_unread-Unmoved, handle_reset_unread-Unmoved,
}
use mls_ds.Actor.Invariant.{
  IsConsistent, commit-IsConsistent, Frame-IsConsistent, sent-IsConsistent,
}
use mls_ds.Actor.Handle.{
  ConvoMessage, add_members, remove_member, send_message, increment_unread, reset_unread, get_epoch,
  shutdown, Reply, epoch, message, acknowledged, nothing, replied, settled, handle, run,
}

module _ (base : ℕ) (st : ActorState) (w : World Store) (inv : IsConsistent base st w.store) where
  same-Frame : {s : Store} → s ≡ w.store → Frame w.store s
  same-Frame e = record {
    conversations = ap (λ (s : Store). s.conversations) e;
    messages = ap (λ (s : Store). s.messages) e;
  }

  unchanged : (w' : World Store) → Frame w.store w'.store → IsConsistent base st w'.store
  unchanged w' f = Frame-IsConsistent base st w.store inv st w'.store refl f refl

  Outcome-IsConsistent :
      (now : ℕ) (bytes : Option (List ℕ)) (st' : ActorState) (n : ℕ) (w' : World Store)
      → CommitOutcome st now bytes w.store (st', n) w'
      → IsConsistent base st' w'.store
  Outcome-IsConsistent now none st' n w' (k, e, c) =
      Frame-IsConsistent base st w.store inv st' w'.store c
        (record { conversations = k.conversations; messages = k.messages }) (e ∙ k.epoch)
  Outcome-IsConsistent now (some bytes) st' n w' (k, e, c) =
      commit-IsConsistent base st w.store inv st' w'.store c now bytes n k e

  replied-IsConsistent :
      {A : Type 0} (f : Result ActorError A → Reply)
      (r : Result ActorError (ActorState × A) × World Store)
      → After (λ x w'. IsConsistent base x.0 w'.store) (λ _ w'. IsConsistent base st w'.store) r
      → let h = replied f st r in IsConsistent base h.1 h.2.store
  replied-IsConsistent f (ok (st', a), w') h = h
  replied-IsConsistent f (err e, w') h = h

  settled-IsConsistent :
      (f : Result ActorError (Unit {0}) → Reply) (r : Result ActorError ActorState × World Store)
      → After (λ x w'. IsConsistent base x w'.store) (λ _ w'. IsConsistent base st w'.store) r
      → let h = settled f st r in IsConsistent base h.1 h.2.store
  settled-IsConsistent f (ok st', w') h = h
  settled-IsConsistent f (err e, w') h = h

  sending-IsConsistent :
      (now : ℕ) (sent : Sent) (x : ActorState × (String × ℕ)) (w' : World Store)
      → SendResult st now sent w.store x w'
      → IsConsistent base x.0 w'.store
  sending-IsConsistent now sent x w' (inl (e, same, kept)) =
      Frame-IsConsistent base st w.store inv x.0 w'.store (ap (λ (s : ActorState). s.convo_id) kept)
        (same-Frame same) (ap (λ (s : ActorState). s.current_epoch) kept)
  sending-IsConsistent now sent x w' (inr (e, at, tables, jobs)) =
      sent-IsConsistent base st w.store inv x.0 w'.store
        (ap (λ (s : ActorState). s.convo_id) jobs ∙ convo_id-try_send _ st) now sent x.1.0
        (ap (λ (s : Store). s.conversations) tables) (ap (λ (s : Store). s.messages) tables)
        (ap (λ (s : ActorState). s.current_epoch) jobs ∙ current_epoch-try_send _ st)

  failing-IsConsistent :
      (now : ℕ) (sent : Sent) (w' : World Store)
      → SendFailure st now sent w.store w'
      → IsConsistent base st w'.store
  failing-IsConsistent now sent w' (inl same) = unchanged w' (same-Frame same)
  failing-IsConsistent now sent w' (inr (id, e, tables)) =
      sent-IsConsistent base st w.store inv st w'.store refl now sent id
        (ap (λ (s : Store). s.conversations) tables) (ap (λ (s : Store). s.messages) tables) refl

  Unmoved-IsConsistent :
      (st' : ActorState) (w' : World Store)
      → Unmoved st w.store st' w'
      → IsConsistent base st' w'.store
  Unmoved-IsConsistent st' w' (f, e, c) = Frame-IsConsistent base st w.store inv st' w'.store c f e

  -- One message, on every fate of every statement.
  pub handle-IsConsistent :
      (codec : Codec) (now : ℕ) (m : ConvoMessage)
      → let h = handle codec st w now m in IsConsistent base h.1 h.2.store
  unfolding handle
  handle-IsConsistent codec now (add_members dids bytes welcome hashes) =
      replied-IsConsistent epoch (handle_add_members codec st now dids bytes welcome hashes w) (
        After-mono (handle_add_members codec st now dids bytes welcome hashes w)
          (λ x w'. CommitOutcome st now bytes w.store x w') (λ x w'. IsConsistent base x.0 w'.store)
          (λ _ w'. w'.store ≡ w.store) (λ _ w'. IsConsistent base st w'.store)
          (λ x w' o. Outcome-IsConsistent now bytes x.0 x.1 w' o)
          (λ e w' same. unchanged w' (same-Frame same))
          (handle_add_members-CommitOutcome codec st now w dids bytes welcome hashes))
  handle-IsConsistent codec now (remove_member did bytes) =
      replied-IsConsistent epoch (handle_remove_member st now did bytes w) (
        After-mono (handle_remove_member st now did bytes w)
          (λ x w'. CommitOutcome st now bytes w.store x w') (λ x w'. IsConsistent base x.0 w'.store)
          (λ _ w'. w'.store ≡ w.store) (λ _ w'. IsConsistent base st w'.store)
          (λ x w' o. Outcome-IsConsistent now bytes x.0 x.1 w' o)
          (λ e w' same. unchanged w' (same-Frame same))
          (handle_remove_member-CommitOutcome codec st now w did bytes))
  handle-IsConsistent codec now (send_message sent) =
      replied-IsConsistent message (handle_send_message st now sent w) (
        After-mono (handle_send_message st now sent w) (λ x w'. SendResult st now sent w.store x w')
          (λ x w'. IsConsistent base x.0 w'.store) (λ _ w'. SendFailure st now sent w.store w')
          (λ _ w'. IsConsistent base st w'.store) (λ x w' o. sending-IsConsistent now sent x w' o)
          (λ e w' o. failing-IsConsistent now sent w' o)
          (handle_send_message-Outcome st now sent w))
  handle-IsConsistent codec now (increment_unread sender) =
      settled-IsConsistent (λ _. nothing) (handle_increment_unread st sender w)
        (After-mono (handle_increment_unread st sender w) (λ x w'. Unmoved st w.store x w')
          (λ x w'. IsConsistent base x w'.store) (λ _ w'. Frame w.store w'.store)
          (λ _ w'. IsConsistent base st w'.store) (λ x w' o. Unmoved-IsConsistent x w' o)
          (λ e w' o. unchanged w' o) (handle_increment_unread-Unmoved st w sender))
  handle-IsConsistent codec now (reset_unread user) =
      settled-IsConsistent acknowledged (handle_reset_unread st user w) (
        After-mono (handle_reset_unread st user w) (λ x w'. Unmoved st w.store x w')
          (λ x w'. IsConsistent base x w'.store) (λ _ w'. Frame w.store w'.store)
          (λ _ w'. IsConsistent base st w'.store) (λ x w' o. Unmoved-IsConsistent x w' o)
          (λ e w' o. unchanged w' o) (handle_reset_unread-Unmoved st w user))
  handle-IsConsistent codec now get_epoch = inv
  handle-IsConsistent codec now shutdown = inv

-- Whatever messages an actor takes, in whatever order and with whatever statements failing, it ends
-- consistent with the tables if it starts so: it holds the epoch of its conversation's row, as many
-- commits are stored as epochs have passed since `base`, and messages are numbered without gaps.
pub run-IsConsistent :
    (base : ℕ) (codec : Codec) (ms : List (ℕ × ConvoMessage)) (st : ActorState) (w : World Store)
    → IsConsistent base st w.store
    → let r = run codec st w ms in IsConsistent base r.0 r.1.store
unfolding run
run-IsConsistent base codec [] st w inv = inv
run-IsConsistent base codec ((now, m) ∷ ms) st w inv =
    let h = handle codec st w now m in
    run-IsConsistent base codec ms h.1 h.2 (handle-IsConsistent base st w inv codec now m)
