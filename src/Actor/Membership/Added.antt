-- ===== src/Actor/Membership/Added.antt =====
-- The rows that adding members leaves: welcomes, and the whole handler.
use mls_ds.Prelude.{
  ℕ, String, ◌≡◌, refl, sym, ap, true, Option, none, some, List, [], ◌∷◌, arith, exists, Any, All,
  All-map, Bool-cases, inl, inr, eq_refl, ◌⊎◌, bytes_eq_refl,
}
use mls_ds.Prelude.Results.{ok_or}
use mls_ds.Sql.{
  World, query, transaction, commit, Ensures, Ensures-query, Ensures-bind, After, After-mono,
  After-bind, After-transaction, Ends, lift, pure, next, ◌>>=◌, ◌>>◌,
}
use mls_ds.Store.{Store, Welcome, done, insert_welcome, same_welcome, hash_key}
use mls_ds.Actor.{context, context_for, ActorState, Codec, KeyPackageHashEntry}
use mls_ds.Actor.Membership.{
  welcome_row, store_commit, add_all, store_welcomes, welcome_all, announce, add_members_tx,
  handle_add_members,
}
use mls_ds.Actor.Membership.Effect.{done-some}
use mls_ds.Actor.Membership.Rows.{store_commit-Rest}
use mls_ds.Actor.Membership.Joined.{Grown, Grown-push, exists-push, add_all-Adding, MembersAdded}

insert_welcome-row :
    (m : Welcome) (s s' : Store)
    → insert_welcome m s ≡ some s'
    → ((exists (same_welcome m) s.welcomes ≡ true) × (s' ≡ s))
      ⊎ (s' ≡ record s { welcomes = m ∷ s.welcomes })
unfolding insert_welcome
insert_welcome-row m s s' h = elim (Bool-cases (exists (same_welcome m) s.welcomes)) [
  | inl t ↦ let k : some s ≡ some s' = (rw t at h) in inl (t, cc)
  | inr f ↦ inr (ground arith)
]

module _ (s : Store) (codec : Codec) (convo : String) (now : ℕ)
    (hashes : Option (List KeyPackageHashEntry)) (payload : List ℕ) (all : List String) where
  abbrev pub IsNewWelcome : Welcome → Type 0
  IsNewWelcome m =
      Any (λ did. (id : String) × (m ≡ welcome_row codec convo now hashes payload did id)) all

  -- A welcome for the DID and its key package waits.
  abbrev pub HasWelcome : Store → String → Type 0
  HasWelcome t did =
      exists (same_welcome (welcome_row codec convo now hashes payload did "")) t.welcomes ≡ true

  abbrev Welcoming : Store → Type 0
  Welcoming t = Grown IsNewWelcome s.welcomes t.welcomes × (t.members ≡ s.members)

  abbrev KeepsWelcomes : Store → Store → Type 0
  KeepsWelcomes t u = (did : String) → HasWelcome t did → HasWelcome u did

  abbrev row_for : String → String → Welcome
  row_for did id = welcome_row codec convo now hashes payload did id

  listed_row :
      (did id : String) (ds : List String)
      → Any (λ d. d ≡ did) ds
      → Any (λ d. (i : String) × (row_for did id ≡ row_for d i)) ds
  listed_row did id [] h = elim h [ ]
  listed_row did id (d ∷ ds) (inl e) = inl (id, ap (λ x. row_for x id) (sym e))
  listed_row did id (d ∷ ds) (inr h) = inr (listed_row did id ds h)

  waits :
      (did id : String) (ms : List Welcome)
      → exists (same_welcome (row_for did "")) (row_for did id ∷ ms) ≡ true
  unfolding exists
  waits did id ms =
      rw (eq_refl convo, eq_refl did, bytes_eq_refl (hash_key (row_for did id).key_package_hash))
        refl

  welcomed_one :
      (did id : String) (t u : Store)
      → Any (λ d. d ≡ did) all
      → Welcoming t
      → insert_welcome (row_for did id) t ≡ some u
      → Welcoming u × HasWelcome u did × KeepsWelcomes t u
  welcomed_one did id t u listed f inserted =
      elim (insert_welcome-row (row_for did id) t u inserted) [
        | inl (there, same) ↦ rw same (f, there, λ d h. h)
        | inr put ↦ rw put (
          (
            Grown-push IsNewWelcome (row_for did id) s.welcomes t.welcomes
                (listed_row did id all listed) f.0,
            f.1,
          ),
          waits did id t.welcomes,
          λ d h. exists-push (same_welcome (row_for d "")) (row_for did id) t.welcomes h,
        )
      ]

  store_welcomes-Welcoming :
      (dids : List String) (w : World Store)
      → All (λ did. Any (λ d. d ≡ did) all) dids
      → Welcoming w.store
      → Ensures
          (λ _ w'.
            Welcoming w'.store × All (HasWelcome w'.store) dids × KeepsWelcomes w.store w'.store)
          (store_welcomes codec convo now hashes payload dids w)
  unfolding store_welcomes
  store_welcomes-Welcoming [] w listed f = (f, tt, λ d h. h)
  store_welcomes-Welcoming (did ∷ dids) w (listed, rest) f =
      Ensures-bind
        (query (context_for "Failed to store welcome message for" did)
          (λ t. done (insert_welcome (row_for did (w.fresh w.drawn)) t)))
        (λ _. store_welcomes codec convo now hashes payload dids) _
        (λ _ u. Welcoming u.store × HasWelcome u.store did × KeepsWelcomes w.store u.store) _
        (Ensures-query _ _ _ _ (λ a t inserted.
          welcomed_one did (w.fresh w.drawn) w.store t listed f (done-some _ a t inserted)))
        (λ _ u (g, row, keeps).
          After-mono (store_welcomes codec convo now hashes payload dids u) _ _ (λ _ _. Unit)
            (λ _ _. Unit) (λ _ v h. (h.0, (h.2 did row, h.1), λ d k. h.2 d (keeps d k)))
            (λ _ v h. tt) (store_welcomes-Welcoming dids u rest g))

abbrev pub WelcomesAdded :
    Codec
    → String
    → ℕ
    → Option String
    → Option (List KeyPackageHashEntry)
    → List String
    → Store
    → Store
    → Type 0
WelcomesAdded codec convo now none hashes dids s s' = s'.welcomes ≡ s.welcomes
WelcomesAdded codec convo now (some b64) hashes dids s s' =
    (payload : List ℕ) × (codec.base64_decode b64 ≡ some payload)
    × Grown (IsNewWelcome s codec convo now hashes payload dids) s.welcomes s'.welcomes
    × All (HasWelcome s codec convo now hashes payload dids s') dids

abbrev pub Added :
    Codec
    → String
    → ℕ
    → Option String
    → Option (List KeyPackageHashEntry)
    → List String
    → Store
    → Store
    → Type 0
Added codec convo now welcome hashes dids s s' =
    MembersAdded convo now dids s s' × WelcomesAdded codec convo now welcome hashes dids s s'

listed_all : (dids : List String) → All (λ did. Any (λ d. d ≡ did) dids) dids
listed_all [] = tt
listed_all (did ∷ dids) = (inl refl, All-map _ _ dids (λ d h. inr h) (listed_all dids))

module _ (codec : Codec) (convo : String) (now : ℕ) (hashes : Option (List KeyPackageHashEntry))
    (dids : List String) where
  welcome_all-Added :
      (s : Store) (welcome : Option String) (w : World Store)
      → MembersAdded convo now dids s w.store
      → w.store.welcomes ≡ s.welcomes
      → Ensures
          (λ _ w'. Added codec convo now welcome hashes dids s w'.store)
          (welcome_all codec convo now welcome hashes dids w)
  unfolding welcome_all
  welcome_all-Added s none w f same = (f, same)
  welcome_all-Added s (some b64) w f same = decoded (codec.base64_decode b64) refl
    where
      decoded :
          (o : Option (List ℕ))
          → codec.base64_decode b64 ≡ o
          → Ensures
              (λ _ w'. Added codec convo now (some b64) hashes dids s w'.store)
              ((lift (ok_or o (context "Invalid base64 welcome message")) >>= λ welcome_data.
                  store_welcomes codec convo now hashes welcome_data dids)
                w)
      decoded none e = tt
      decoded (some payload) e =
          After-mono (store_welcomes codec convo now hashes payload dids w) _ _ (λ _ _. Unit)
            (λ _ _. Unit) (λ _ v h. (rw h.0.1 f, (payload, e, rw (← same) h.0.0, h.1)))
            (λ _ v h. tt)
            (store_welcomes-Welcoming w.store codec convo now hashes payload dids dids w
              (listed_all dids) (([], refl, tt), refl))

module _ (codec : Codec) (st : ActorState) (now : ℕ) (w : World Store) (dids : List String)
    (commit_bytes : Option (List ℕ)) (welcome : Option String)
    (hashes : Option (List KeyPackageHashEntry)) where
  add_members_tx-Added :
      Ensures
        (Ends {A = Option String × ℕ}
          (λ _ w'. Added codec st.convo_id now welcome hashes dids w.store w'.store)
          w.store)
        (add_members_tx codec st now dids commit_bytes welcome hashes (next w w.store))
  unfolding add_members_tx
  add_members_tx-Added =
      Ensures-bind (store_commit st now commit_bytes)
        (λ stored.
          add_all st.convo_id now dids
          >> (welcome_all codec st.convo_id now welcome hashes dids >> pure (commit stored)))
        (next w w.store) _ _ (store_commit-Rest st now commit_bytes (next w w.store))
        (λ stored u rest.
          Ensures-bind (add_all st.convo_id now dids)
            (λ _. welcome_all codec st.convo_id now welcome hashes dids >> pure (commit stored)) u _
            _
            (add_all-Adding w.store st.convo_id now dids dids u (listed_all dids)
              (([], rest.members, tt), rest.welcomes))
            (λ _ v h.
              Ensures-bind (welcome_all codec st.convo_id now welcome hashes dids)
                (λ _. pure (commit stored)) v _ _
                (welcome_all-Added codec st.convo_id now hashes dids w.store welcome v (h.0.0, h.1)
                  h.0.1)
                (λ _ v' k. k)))

  pub handle_add_members-Added :
      After
        (λ _ w'. Added codec st.convo_id now welcome hashes dids w.store w'.store)
        (λ _ w'. w'.store ≡ w.store)
        (handle_add_members codec st now dids commit_bytes welcome hashes w)
  unfolding handle_add_members
  handle_add_members-Added =
      After-bind (transaction _ _ (add_members_tx codec st now dids commit_bytes welcome hashes))
        (λ stored. pure (record (announce stored.0 st) { current_epoch = stored.1 }, stored.1)) w
        (λ _ w'. Added codec st.convo_id now welcome hashes dids w.store w'.store) _ _
        (After-transaction _ _ _ w _ add_members_tx-Added) (λ r w' e. e)
