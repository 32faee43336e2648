-- ===== src/Actor/Stale.antt =====
-- An actor whose conversation has moved on without it.
use mls_ds.Prelude.{
  ℕ, ◌≡◌, ◌≢◌, refl, sym, ap, ◌∙◌, Bool, true, false, none, some, List, [], ◌∷◌, All,
}
use mls_ds.Prelude.Results.{Result, ok, err}
use mls_ds.Sql.{World, After}
use mls_ds.Store.{Store, Conversation}
use mls_ds.Actor.{ActorError, ActorState, Codec}
use mls_ds.Actor.Membership.Commits.{
  CommitOutcome, handle_add_members-CommitOutcome, handle_remove_member-CommitOutcome,
}
use mls_ds.Actor.Handle.{
  ConvoMessage, add_members, remove_member, send_message, increment_unread, reset_unread, get_epoch,
  shutdown, Reply, epoch, message, acknowledged, nothing, replied, handle, run, replies,
}

-- The message changes the members and carries a commit.
unfoldable pub carries_commit : ConvoMessage → Bool
carries_commit (add_members dids (some bytes) welcome hashes) = true
carries_commit (add_members dids none welcome hashes) = false
carries_commit (remove_member did (some bytes)) = true
carries_commit (remove_member did none) = false
carries_commit (send_message sent) = false
carries_commit (increment_unread sender) = false
carries_commit (reset_unread user) = false
carries_commit get_epoch = false
carries_commit shutdown = false

-- The sender is told an error in place of an epoch.
abbrev pub IsRefused : Reply → Type 0
IsRefused (epoch (err e)) = Unit
IsRefused (epoch (ok n)) = ⊥
IsRefused (message r) = ⊥
IsRefused (acknowledged r) = ⊥
IsRefused nothing = ⊥

module _ (codec : Codec) (st : ActorState) (c : Conversation)
    (stale : c.current_epoch ≢ st.current_epoch) where
  refused :
      (now : ℕ) (bytes : List ℕ) (w : World Store)
      (r : Result ActorError (ActorState × ℕ) × World Store)
      → w.store.conversations st.convo_id ≡ some c
      → After (CommitOutcome st now (some bytes) w.store) (λ _ w'. w'.store ≡ w.store) r
      → ((replied epoch st r).1 ≡ st)
        × ((replied epoch st r).2.store ≡ w.store)
        × IsRefused (replied epoch st r).0
  refused now bytes w (ok (st', n), w') found (k, e, i) =
      let ec : c ≡ k.row = (let p : some c ≡ some k.row = sym found ∙ k.found in cc) in
      absurd (stale (ap (λ (x : Conversation). x.current_epoch) ec ∙ k.current))
  refused now bytes w (err x, w') found same = (refl, same, tt)

  handled :
      (now : ℕ) (m : ConvoMessage) (w : World Store)
      → w.store.conversations st.convo_id ≡ some c
      → carries_commit m ≡ true
      → ((handle codec st w now m).1 ≡ st)
        × ((handle codec st w now m).2.store ≡ w.store)
        × IsRefused (handle codec st w now m).0
  unfolding handle carries_commit
  handled now (add_members dids (some bytes) welcome hashes) w found h =
      refused now bytes w _ found
        (handle_add_members-CommitOutcome codec st now w dids (some bytes) welcome hashes)
  handled now (remove_member did (some bytes)) w found h =
      refused now bytes w _ found
        (handle_remove_member-CommitOutcome codec st now w did (some bytes))
  handled now (add_members dids none welcome hashes) w found h = cc
  handled now (remove_member did none) w found h = cc
  handled now (send_message sent) w found h = cc
  handled now (increment_unread sender) w found h = cc
  handled now (reset_unread user) w found h = cc
  handled now get_epoch w found h = cc
  handled now shutdown w found h = cc

-- Once the epoch in the conversation's row is not the actor's, every change of members with a commit is
-- refused: after any number of them the actor and the tables are as they were, and each sender was told
-- an error.
pub run-stale :
    (codec : Codec) (ms : List (ℕ × ConvoMessage)) (st : ActorState) (w : World Store)
    (c : Conversation)
    → c.current_epoch ≢ st.current_epoch
    → w.store.conversations st.convo_id ≡ some c
    → All (λ m. carries_commit m.1 ≡ true) ms
    → ((run codec st w ms).0 ≡ st)
      × ((run codec st w ms).1.store ≡ w.store)
      × All IsRefused (replies codec st w ms)
unfolding run replies
run-stale codec [] st w c stale found h = (refl, refl, tt)
run-stale codec ((now, m) ∷ ms) st w c stale found (h, hs) =
    let r = handle codec st w now m in
    let (kept, same, told) = handled codec st c stale now m w found h in
    let (kept', same', told') =
      run-stale codec ms r.1 r.2 c (λ e. stale (e ∙ ap (λ (s : ActorState). s.current_epoch) kept))
        (ap (λ (s : ActorState). r.2.store.conversations s.convo_id) kept
          ∙ ap (λ (s : Store). s.conversations st.convo_id) same
          ∙ found)
        hs in
    (kept' ∙ kept, same' ∙ same, (told, told'))
