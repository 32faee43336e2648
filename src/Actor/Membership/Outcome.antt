-- ===== src/Actor/Membership/Outcome.antt =====
-- The outcomes of `handle_add_members` and `handle_remove_member`: all or nothing.
use mls_ds.Prelude.{ℕ, String, ◌≡◌, Option, List}
use mls_ds.Prelude.Results.{Result, ok, err}
use mls_ds.Sql.{World, After}
use mls_ds.Store.{Store}
use mls_ds.Actor.{ActorError, ActorState, Codec, KeyPackageHashEntry}
use mls_ds.Actor.Membership.{handle_add_members, handle_remove_member}
use mls_ds.Actor.Membership.Commits.{
  CommitOutcome, handle_add_members-CommitOutcome, handle_remove_member-CommitOutcome,
}
use mls_ds.Actor.Membership.Rows.{Removed, handle_remove_member-Removed}
use mls_ds.Actor.Membership.Added.{Added, handle_add_members-Added}

-- What a handler of the actor promises: the commit, if there was one, took effect, the actor's epoch is
-- the one that it returns, and the rows of members and welcomes changed in this way.
abbrev pub Outcome :
    ActorState
    → ℕ
    → Option (List ℕ)
    → (Store → Store → Type 0)
    → Store
    → ActorState × ℕ
    → World Store
    → Type 0
Outcome st now commit_bytes Change s r w' =
    CommitOutcome st now commit_bytes s r w' × Change s w'.store

both_After :
    {A : Type 0} (P Q : A → World Store → Type 0) (R : ActorError → World Store → Type 0)
    (r : Result ActorError A × World Store)
    → After P R r
    → After Q R r
    → After (λ a w. P a w × Q a w) R r
both_After P Q R (ok a, w) p q = (p, q)
both_After P Q R (err e, w) p q = p

module _ (codec : Codec) (st : ActorState) (now : ℕ) (w : World Store) where
  -- Adding members either fails and changes no table; or stores the commit at the conversation's next
  -- epoch, which the actor then holds and returns (without a commit the epoch and the messages stay),
  -- every listed DID has a row afterwards, and with a welcome each of them has one that waits. New rows
  -- stand on top of the old ones: of listed DIDs that had none, and welcomes for listed DIDs. So on
  -- every fate of every statement.
  pub handle_add_members-Outcome :
      (dids : List String) (commit_bytes : Option (List ℕ)) (welcome : Option String)
      (hashes : Option (List KeyPackageHashEntry))
      → After
          (Outcome st now commit_bytes (Added codec st.convo_id now welcome hashes dids) w.store)
          (λ _ w'. w'.store ≡ w.store)
          (handle_add_members codec st now dids commit_bytes welcome hashes w)
  handle_add_members-Outcome dids commit_bytes welcome hashes =
      both_After _ _ _ (handle_add_members codec st now dids commit_bytes welcome hashes w)
        (handle_add_members-CommitOutcome codec st now w dids commit_bytes welcome hashes)
        (handle_add_members-Added codec st now w dids commit_bytes welcome hashes)

  -- Removing a member either fails and changes no table; or stores the commit likewise, and the
  -- member's row has left now, while every other row of members and all welcomes are as they were.
  pub handle_remove_member-Outcome :
      (did : String) (commit_bytes : Option (List ℕ))
      → After
          (Outcome st now commit_bytes (Removed now st.convo_id did) w.store)
          (λ _ w'. w'.store ≡ w.store)
          (handle_remove_member st now did commit_bytes w)
  handle_remove_member-Outcome did commit_bytes =
      both_After _ _ _ (handle_remove_member st now did commit_bytes w)
        (handle_remove_member-CommitOutcome codec st now w did commit_bytes)
        (handle_remove_member-Removed st now w did commit_bytes)
