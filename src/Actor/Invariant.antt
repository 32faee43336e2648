-- ===== src/Actor/Invariant.antt =====
-- What holds of an actor and the tables between two messages, whatever statements fail.
pub mod Run
use mls_ds.Prelude.{
  ℕ, suc, ◌+◌, ◌-◌, ◌^◌, ◌≤◌, ◌<◌, max, String, ◌≡◌, refl, sym, ap, subst, ◌∙◌, ◌⊎◌, inl, inr, Bool,
  true, false, ◌&&◌, Option, none, some, List, [], ◌∷◌, arith, ◌==◌, if◌then◌else◌, str_eq, eq_refl,
}
use mls_ds.Sql.{World}
use mls_ds.Store.{Store, Conversation, Message, app_type, commit_type, MessageType, next_epoch}
use mls_ds.Store.Messages.{max_seq}
use mls_ds.Actor.{ActorState, SideEffectJob, try_send}
use mls_ds.Actor.Membership.{commit_row}
use mls_ds.Actor.Membership.Effect.{CommitEffect, Commits, Frame}
use mls_ds.Actor.Messages.{Sent, sent_row}
use mls_ds.Actor.Messages.Outcome.{SendResult, SendFailure, row_on}

abbrev is_commit : MessageType → Bool
is_commit app_type = false
is_commit commit_type = true

-- The commits that are stored for a conversation.
unfoldable pub commits : String → List Message → ℕ
commits convo [] = 0
commits convo (m ∷ ms) =
    (if str_eq m.convo_id convo && is_commit m.message_type then 1 else 0) + commits convo ms

-- From the oldest message on, each has the sequence number after the largest of its conversation.
abbrev pub IsSequenced : List Message → Type 0
IsSequenced [] = Unit {0}
IsSequenced (m ∷ ms) = (m.seq ≡ suc (max_seq m.convo_id ms)) × IsSequenced ms

-- The actor holds the epoch of its conversation's row; as many commits are stored as epochs have passed
-- since `base`; and the messages are numbered without gaps.
pub record IsConsistent (base : ℕ) (st : ActorState) (s : Store) : Type 0 where
  pub row : Conversation
  pub found : s.conversations st.convo_id ≡ some row
  pub epoch : row.current_epoch ≡ st.current_epoch
  pub small : st.current_epoch < 2 ^ 31
  pub tally : base + commits st.convo_id s.messages ≡ st.current_epoch
  pub sequenced : IsSequenced s.messages

next_epoch-small : (e n : ℕ) → e < 2 ^ 31 → next_epoch e ≡ some n → (n ≡ e + 1) × (n < 2 ^ 31)
next_epoch-small e n h k = ground arith

commits-commit_row :
    (st : ActorState) (now : ℕ) (id : String) (e q : ℕ) (bytes : List ℕ) (ms : List Message)
    → commits st.convo_id (commit_row st now id e q bytes ∷ ms) ≡ suc (commits st.convo_id ms)
unfolding commits
commits-commit_row st now id e q bytes ms = rw (eq_refl st.convo_id) (omega arith)

commits-sent_row :
    (convo : String) (now : ℕ) (sent : Sent) (id : String) (q : ℕ) (ms : List Message)
    → commits convo (sent_row convo now sent id q ∷ ms) ≡ commits convo ms
unfolding commits
commits-sent_row convo now sent id q ms = rw (eq_refl convo) (omega arith)

module _ (base : ℕ) (st : ActorState) (s : Store) (inv : IsConsistent base st s) (st' : ActorState)
    (s' : Store) (convo : st'.convo_id ≡ st.convo_id) where
  pub commit-IsConsistent :
      (now : ℕ) (bytes : List ℕ) (n : ℕ)
      → Commits st now bytes s n s'
      → st'.current_epoch ≡ n
      → IsConsistent base st' s'
  commit-IsConsistent now bytes n c e =
      let (grows, stays) = next_epoch-small st.current_epoch n inv.small c.advances in
      let newer =
        commits-commit_row st now c.msg_id n (suc (max_seq st.convo_id s.messages)) bytes
          s.messages in
      record {
        row = record c.row { current_epoch = n; updated_at = now };
        found = rw convo (ap (λ f. f st.convo_id) c.conversations ∙ rw (eq_refl st.convo_id));
        epoch = sym e;
        small = omega arith;
        tally = rw (convo, c.messages) (omega (arith, newer, inv.tally));
        sequenced = subst IsSequenced (sym c.messages) (refl, inv.sequenced);
      }

  -- Tables with the same conversations and messages, and an actor at the same epoch.
  pub Frame-IsConsistent :
      Frame s s' → st'.current_epoch ≡ st.current_epoch → IsConsistent base st' s'
  Frame-IsConsistent f e = record {
    row = inv.row;
    found = rw convo (ap (λ g. g st.convo_id) f.conversations ∙ inv.found);
    epoch = inv.epoch ∙ sym e;
    small = omega (arith, inv.small);
    tally = rw (convo, f.messages) (inv.tally ∙ sym e);
    sequenced = subst IsSequenced (sym f.messages) inv.sequenced;
  }

  -- One more row of the kind that sending a message stores.
  pub sent-IsConsistent :
      (now : ℕ) (sent : Sent) (id : String)
      → s'.conversations ≡ s.conversations
      → s'.messages ≡ row_on st.convo_id now sent s.messages id ∷ s.messages
      → st'.current_epoch ≡ st.current_epoch
      → IsConsistent base st' s'
  sent-IsConsistent now sent id cs ms e = record {
    row = inv.row;
    found = rw convo (ap (λ g. g st.convo_id) cs ∙ inv.found);
    epoch = inv.epoch ∙ sym e;
    small = omega (arith, inv.small);
    tally =
        rw (convo, ms)
          (omega (
            arith,
            commits-sent_row st.convo_id now sent id (suc (max_seq st.convo_id s.messages))
                s.messages,
            inv.tally,
            e,
          ));
    sequenced = subst IsSequenced (sym ms) (refl, inv.sequenced);
  }
