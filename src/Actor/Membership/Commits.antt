-- ===== src/Actor/Membership/Commits.antt =====
-- What the two handlers do to the conversation, the messages and the actor.
use mls_ds.Prelude.{
  ℕ, String, ◌≡◌, refl, Bool, true, false, Option, none, some, List, [], ◌∷◌, arith, if◌then◌else◌,
  exists, subst,
}
use mls_ds.Prelude.Results.{ok_or}
use mls_ds.Sql.{
  World, query, transaction, Ending, commit, After, Ensures, Ensures-query, Ensures-bind,
  After-bind, After-transaction, Ends, lift, pure, next, ◌>>=◌, ◌>>◌,
}
use mls_ds.Store.{Store, done, insert_member, insert_welcome, Welcome, is_row}
use mls_ds.Actor.{context, context_for, ActorState, Codec, KeyPackageHashEntry, try_send}
use mls_ds.Actor.Membership.{
  new_member, welcome_row, store_commit, add_member, add_all, store_welcomes, welcome_all, announce,
  add_members_tx, handle_add_members, mark_left, remove_count, remove_member_tx,
  handle_remove_member,
}
use mls_ds.Actor.Membership.Effect.{
  CommitEffect, Frame, Frame-refl, Frame-trans, CommitEffect-Frame, insert_member-Frame, done-some,
  store_commit-Effect,
}

insert_welcome-Frame : (m : Welcome) (s s' : Store) → insert_welcome m s ≡ some s' → Frame s s'
unfolding insert_welcome
insert_welcome-Frame m s s' h = ground arith

module _ (s : Store) where
  add_member-Frame :
      (convo : String) (now : ℕ) (did : String) (w : World Store)
      → Frame s w.store
      → Ensures (λ _ w'. Frame s w'.store) (add_member convo now did w)
  unfolding add_member
  add_member-Frame convo now did w f =
      Ensures-bind (query _ (λ t. some (exists (is_row convo did) t.members, t)))
        (λ b.
          if b
          then pure tt
          else query (context_for "Failed to add member" did)
              (λ t. done (insert_member (new_member convo now did) t)))
        w (λ _ w'. Frame s w'.store) _
        (Ensures-query _ _ w _ (λ a t same. let e : w.store ≡ t = cc in subst (Frame s) e f))
        branches
    where
      branches :
          (b : Bool) (w' : World Store)
          → Frame s w'.store
          → Ensures
              (λ _ v. Frame s v.store)
              ((if b
                  then pure tt
                  else query
                      (context_for "Failed to add member" did)
                      (λ t. done (insert_member (new_member convo now did) t)))
                w')
      branches true w' g = g
      branches false w' g = Ensures-query _ _ w' _ (λ a t inserted.
          Frame-trans g (insert_member-Frame _ w'.store t (done-some _ a t inserted)))

  add_all-Frame :
      (convo : String) (now : ℕ) (dids : List String) (w : World Store)
      → Frame s w.store
      → Ensures (λ _ w'. Frame s w'.store) (add_all convo now dids w)
  unfolding add_all
  add_all-Frame convo now [] w f = f
  add_all-Frame convo now (did ∷ dids) w f =
      Ensures-bind (add_member convo now did) (λ _. add_all convo now dids) w
        (λ _ w'. Frame s w'.store) _ (add_member-Frame convo now did w f)
        (λ _ w' g. add_all-Frame convo now dids w' g)

  module _ (codec : Codec) (convo : String) (now : ℕ)
      (hashes : Option (List KeyPackageHashEntry)) where
    store_welcomes-Frame :
        (welcome_data : List ℕ) (dids : List String) (w : World Store)
        → Frame s w.store
        → Ensures
            (λ _ w'. Frame s w'.store)
            (store_welcomes codec convo now hashes welcome_data dids w)
    unfolding store_welcomes
    store_welcomes-Frame welcome_data [] w f = f
    store_welcomes-Frame welcome_data (did ∷ dids) w f =
        Ensures-bind
          (query (context_for "Failed to store welcome message for" did) (λ t. done (
            insert_welcome (welcome_row codec convo now hashes welcome_data did (w.fresh w.drawn))
              t)))
          (λ _. store_welcomes codec convo now hashes welcome_data dids) _
          (λ _ w'. Frame s w'.store) _
          (Ensures-query _ _ _ _ (λ a t inserted.
            Frame-trans f (insert_welcome-Frame _ w.store t (done-some _ a t inserted))))
          (λ _ w' g. store_welcomes-Frame welcome_data dids w' g)

    welcome_all-Frame :
        (welcome : Option String) (dids : List String) (w : World Store)
        → Frame s w.store
        → Ensures (λ _ w'. Frame s w'.store) (welcome_all codec convo now welcome hashes dids w)
    unfolding welcome_all
    welcome_all-Frame none dids w f = f
    welcome_all-Frame (some b64) dids w f = go (codec.base64_decode b64)
      where
        go :
            (o : Option (List ℕ))
            → Ensures
                (λ _ w'. Frame s w'.store)
                ((lift (ok_or o (context "Invalid base64 welcome message")) >>= λ welcome_data.
                    store_welcomes codec convo now hashes welcome_data dids)
                  w)
        go none = tt
        go (some welcome_data) = store_welcomes-Frame welcome_data dids w f

-- What a handler of the actor promises: after an error the tables are as they were; otherwise the
-- commit, if there was one, took effect, and the actor's epoch is the one that it returns.
abbrev pub CommitOutcome :
    ActorState → ℕ → Option (List ℕ) → Store → ActorState × ℕ → World Store → Type 0
CommitOutcome st now commit_bytes s (st', n) w' =
    CommitEffect st now commit_bytes s n w'.store
    × (st'.current_epoch ≡ n)
    × (st'.convo_id ≡ st.convo_id)

announce-convo_id : (m : Option String) (st : ActorState) → (announce m st).convo_id ≡ st.convo_id
unfolding try_send
announce-convo_id none st = refl
announce-convo_id (some id) st = ground arith

module _ (st : ActorState) (now : ℕ) (w : World Store) where
  abbrev Stays : Option (List ℕ) → Ending (Option String × ℕ) → World Store → Type 0
  Stays commit_bytes = Ends (λ r w'. CommitEffect st now commit_bytes w.store r.1 w'.store) w.store

  add_members_tx-Effect :
      (codec : Codec) (dids : List String) (commit_bytes : Option (List ℕ))
      (welcome : Option String) (hashes : Option (List KeyPackageHashEntry))
      → Ensures
          (Stays commit_bytes)
          (add_members_tx codec st now dids commit_bytes welcome hashes (next w w.store))
  unfolding add_members_tx
  add_members_tx-Effect codec dids commit_bytes welcome hashes =
      Ensures-bind (store_commit st now commit_bytes)
        (λ stored.
          add_all st.convo_id now dids
          >> (welcome_all codec st.convo_id now welcome hashes dids >> pure (commit stored)))
        (next w w.store) _ _ (store_commit-Effect st now commit_bytes (next w w.store))
        (λ stored u effect.
          Ensures-bind (add_all st.convo_id now dids)
            (λ _. welcome_all codec st.convo_id now welcome hashes dids >> pure (commit stored)) u
            (λ _ v. Frame u.store v.store) _
            (add_all-Frame u.store st.convo_id now dids u (Frame-refl u.store))
            (λ _ v f.
              Ensures-bind (welcome_all codec st.convo_id now welcome hashes dids)
                (λ _. pure (commit stored)) v (λ _ v'. Frame u.store v'.store) _
                (welcome_all-Frame u.store codec st.convo_id now hashes welcome dids v f)
                (λ _ v' g. CommitEffect-Frame st now commit_bytes w.store stored.1 effect g)))

  remove_member_tx-Effect :
      (did : String) (commit_bytes : Option (List ℕ))
      → Ensures (Stays commit_bytes) (remove_member_tx st now did commit_bytes (next w w.store))
  unfolding remove_member_tx
  remove_member_tx-Effect did commit_bytes =
      Ensures-bind (store_commit st now commit_bytes)
        (λ stored.
          query (context "Failed to mark member as left")
            (λ s. some (tt, record s { members = mark_left now st.convo_id did s.members }))
          >> pure (commit stored))
        (next w w.store) _ _ (store_commit-Effect st now commit_bytes (next w w.store))
        (λ stored u effect.
          Ensures-bind
            (query (context "Failed to mark member as left")
              (λ s. some (tt, record s { members = mark_left now st.convo_id did s.members })))
            (λ _. pure (commit stored)) u (λ _ v. Frame u.store v.store) _
            (Ensures-query _ _ u _ (λ a t same. marked a t same))
            (λ _ v f. CommitEffect-Frame st now commit_bytes w.store stored.1 effect f))
    where
      marked :
          {u : Store} (a : Unit {0}) (t : Store)
          → ◌≡◌ {A = Option (Unit {0} × Store)}
              (some (tt, record u { members = mark_left now st.convo_id did u.members }))
              (some (a, t))
          → Frame u t
      marked a t same = record { conversations = ground arith; messages = ground arith }

module _ (codec : Codec) (st : ActorState) (now : ℕ) (w : World Store) where
  pub handle_add_members-CommitOutcome :
      (dids : List String) (commit_bytes : Option (List ℕ)) (welcome : Option String)
      (hashes : Option (List KeyPackageHashEntry))
      → After
          (CommitOutcome st now commit_bytes w.store)
          (λ _ w'. w'.store ≡ w.store)
          (handle_add_members codec st now dids commit_bytes welcome hashes w)
  unfolding handle_add_members
  handle_add_members-CommitOutcome dids commit_bytes welcome hashes =
      After-bind (transaction _ _ (add_members_tx codec st now dids commit_bytes welcome hashes))
        (λ stored. pure (record (announce stored.0 st) { current_epoch = stored.1 }, stored.1)) w
        (λ r w'. CommitEffect st now commit_bytes w.store r.1 w'.store) _ _
        (After-transaction _ _ _ w _
          (add_members_tx-Effect st now w codec dids commit_bytes welcome hashes))
        (λ r w' e. (e, refl, announce-convo_id r.0 st))

  pub handle_remove_member-CommitOutcome :
      (did : String) (commit_bytes : Option (List ℕ))
      → After
          (CommitOutcome st now commit_bytes w.store)
          (λ _ w'. w'.store ≡ w.store)
          (handle_remove_member st now did commit_bytes w)
  unfolding handle_remove_member
  handle_remove_member-CommitOutcome did commit_bytes =
      After-bind (transaction _ _ (remove_member_tx st now did commit_bytes))
        (λ stored.
          let st' : ActorState = announce stored.0 st in
          pure (
            record st' {
              current_epoch = stored.1;
              unread_counts = remove_count did st'.unread_counts;
            },
            stored.1,
          ))
        w (λ r w'. CommitEffect st now commit_bytes w.store r.1 w'.store) _ _
        (After-transaction _ _ _ w _ (remove_member_tx-Effect st now w did commit_bytes))
        (λ r w' e. (e, refl, announce-convo_id r.0 st))
