-- ===== src/Actor/Unread/Frames.antt =====
-- Counting unread messages leaves the conversations, the messages and the actor's epoch alone.
use mls_ds.Prelude.{
  ℕ, ◌+◌, ◌%◌, ◌^◌, String, ◌≡◌, refl, some, List, [], ◌∷◌, ◌==◌, subst, where_, Bool-cases, inl,
  inr, arith,
}
use mls_ds.Prelude.Results.{Result, ok, err}
use mls_ds.Sql.{World, query, pure, After, After-query, After-bind, After-world, ◌>>=◌}
use mls_ds.Store.{Store, Member, is_value, is_active}
use mls_ds.Actor.{ActorError, context, ActorState}
use mls_ds.Actor.Membership.Effect.{Frame, Frame-refl, Frame-trans}
use mls_ds.Actor.Unread.{
  get_count, flush_rows, flush_unread, increment_member, increment_all, on_rows,
  handle_increment_unread, of_user, clear_unread, zero_counts, handle_reset_unread,
}

members-Frame : (s : Store) (ms : List Member) → Frame s (record s { members = ms })
members-Frame s ms = record { conversations = refl; messages = refl }

flush_unread-Frame :
    (convo did : String) (s t : Store) (a : Unit {0})
    → flush_unread convo did s ≡ some (a, t)
    → Frame s t
unfolding flush_unread
flush_unread-Frame convo did s t a h =
    let same : t ≡ record s { members = flush_rows convo did s.members } = ground arith in
    rw same (members-Frame s (flush_rows convo did s.members))

module _ (s : Store) where
  abbrev Framed : {A : Type 0} → A → World Store → Type 0
  Framed a w = Frame s w.store

  -- A statement that rewrites the members only, or reads.
  update-Frame :
      {A : Type 0} (e : ActorError) (f : Store → A) (g : Store → List Member) (w : World Store)
      → Frame s w.store
      → After Framed Framed (query e (λ t. some (f t, record t { members = g t })) w)
  update-Frame e f g w h =
      After-query e (λ t. some (f t, record t { members = g t })) w Framed Framed h
        (λ a t same.
          let e' : record w.store { members = g w.store } ≡ t = cc in
          subst (Frame s) e' (Frame-trans h (members-Frame w.store (g w.store))))

  increment_member-Frame :
      (convo did : String) (counts : List (String × ℕ)) (w : World Store)
      → Frame s w.store
      → After Framed Framed (increment_member convo did counts w)
  unfolding increment_member
  increment_member-Frame convo did counts w h =
      elim (Bool-cases ((get_count did counts + 1) % 2 ^ 32 % 10 == 0)) [
        | inl due ↦ rw due (
            After-world _ (Framed tt) (
              After-query (context "Failed to sync unread count") (flush_unread convo did) w Framed
                Framed h
                (λ a t same. Frame-trans h (flush_unread-Frame convo did w.store t a same))))
        | inr later ↦ rw later h
      ]

  increment_all-Frame :
      (convo sender : String) (ms : List Member) (counts : List (String × ℕ)) (w : World Store)
      → Frame s w.store
      → After Framed Framed (increment_all convo sender ms counts w)
  unfolding increment_all
  increment_all-Frame convo sender [] counts w h = h
  increment_all-Frame convo sender (m ∷ ms) counts w h =
      elim (Bool-cases (is_value m.user_did sender)) [
        | inl own ↦ rw own (increment_all-Frame convo sender ms counts w h)
        | inr other ↦ rw other (
            After-bind (increment_member convo m.member_did counts) (increment_all convo sender ms)
              w Framed Framed Framed (increment_member-Frame convo m.member_did counts w h)
              (λ cs w' h'. increment_all-Frame convo sender ms cs w' h'))
      ]

-- The tables that count, and the actor that returns, are as before but for the unread counts.
abbrev pub Unmoved : ActorState → Store → ActorState → World Store → Type 0
Unmoved st s st' w =
    Frame s w.store × (st'.current_epoch ≡ st.current_epoch) × (st'.convo_id ≡ st.convo_id)

module _ (st : ActorState) (w : World Store) where
  on_rows-Frame :
      (sender : String) (r : Result ActorError (List Member)) (v : World Store)
      → Frame w.store v.store
      → After (Framed w.store) (Framed w.store) (on_rows st sender r v)
  unfolding on_rows
  on_rows-Frame sender (ok ms) v h =
      increment_all-Frame w.store st.convo_id sender ms st.unread_counts v h
  on_rows-Frame sender (err e) v h = h

  -- Counting a message as unread leaves the conversations, the messages and the actor's epoch and
  -- conversation as they are, on every fate of every statement.
  pub handle_increment_unread-Unmoved :
      (sender : String)
      → After
          (Unmoved st w.store)
          (λ _ w'. Frame w.store w'.store)
          (handle_increment_unread st sender w)
  unfolding handle_increment_unread
  handle_increment_unread-Unmoved sender =
      After-bind (on_rows st sender rows.0) (λ counts. pure (record st { unread_counts = counts }))
        rows.1 (Framed w.store) _ (Framed w.store) (on_rows-Frame sender rows.0 rows.1 read)
        (λ counts v h. (h, refl, refl))
    where
      rows : Result ActorError (List Member) × World Store
      rows =
          query (context "Failed to get members")
            (λ s. some (where_ (is_active st.convo_id) s.members, s)) w

      read : Frame w.store rows.1.store
      read = After-world rows (Framed w.store tt) (
          update-Frame w.store (context "Failed to get members")
            (λ t. where_ (is_active st.convo_id) t.members) (λ t. t.members) w (Frame-refl w.store))

  -- Resetting a user's unread counts leaves the conversations, the messages and the actor's epoch and
  -- conversation as they are, on every fate of every statement.
  pub handle_reset_unread-Unmoved :
      (user : String)
      → After (Unmoved st w.store) (λ _ w'. Frame w.store w'.store) (handle_reset_unread st user w)
  unfolding handle_reset_unread
  handle_reset_unread-Unmoved user =
      After-bind
        (query (context "Failed to reset unread count in database")
          (λ s. some (tt, record s { members = clear_unread st.convo_id user s.members })))
        (λ _.
          query (context "Failed to fetch device DIDs")
            (λ s. some (where_ (of_user st.convo_id user) s.members, s))
          >>= λ devices. pure (record st { unread_counts = zero_counts devices st.unread_counts }))
        w (Framed w.store) _ (Framed w.store)
        (update-Frame w.store _ _ (λ t. clear_unread st.convo_id user t.members) w
          (Frame-refl w.store))
        (λ _ v h.
          After-bind
            (query (context "Failed to fetch device DIDs")
              (λ s. some (where_ (of_user st.convo_id user) s.members, s)))
            (λ devices. pure (record st { unread_counts = zero_counts devices st.unread_counts })) v
            (Framed w.store) _ (Framed w.store) (update-Frame w.store _ _ (λ t. t.members) v h)
            (λ devices u k. (k, refl, refl)))
