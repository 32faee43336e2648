-- ===== src/Actor/Membership/Joined.antt =====
-- The rows of members that adding members leaves.
use mls_ds.Prelude.{
  ℕ, String, ◌≡◌, refl, sym, ap, ◌∙◌, Bool, true, false, ◌||◌, some, List, [], ◌∷◌, ◌++◌, arith,
  if◌then◌else◌, exists, Any, All, Bool-cases, inl, inr, eq_refl,
}
use mls_ds.Sql.{World, query, Ensures, Ensures-query, Ensures-bind, After-mono, pure}
use mls_ds.Store.{Store, Member, done, insert_member, is_row}
use mls_ds.Actor.{context_for}
use mls_ds.Actor.Membership.{new_member, add_member, add_all}
use mls_ds.Actor.Membership.Effect.{done-some}

-- Rows with a property stand on top of those that were there.
abbrev pub Grown : {A : Type 0} → (A → Type 0) → List A → List A → Type 0
Grown {A} Q xs ys = (new : List A) × (ys ≡ new ++ xs) × All Q new

pub Grown-push :
    {A : Type 0} (Q : A → Type 0) (x : A) (xs ys : List A)
    → Q x
    → Grown Q xs ys
    → Grown Q xs (x ∷ ys)
Grown-push Q x xs ys q (new, e, qs) = (x ∷ new, ap (◌∷◌ x) e, (q, qs))

exists-suffix :
    {A : Type 0} (p : A → Bool) (new xs : List A)
    → exists p (new ++ xs) ≡ false
    → exists p xs ≡ false
unfolding exists
exists-suffix p [] xs h = h
exists-suffix p (x ∷ new) xs h = exists-suffix p new xs (later (p x) _ h)
  where
    later : (a b : Bool) → (a || b) ≡ false → b ≡ false
    later true b h = cc
    later false b h = h

pub exists-push :
    {A : Type 0} (p : A → Bool) (x : A) (xs : List A)
    → exists p xs ≡ true
    → exists p (x ∷ xs) ≡ true
unfolding exists
exists-push p x xs h = elim (Bool-cases (p x)) [ inl t ↦ rw t refl | inr f ↦ rw f h ]

insert_member-row :
    (m : Member) (s s' : Store)
    → insert_member m s ≡ some s'
    → s' ≡ record s { members = m ∷ s.members }
unfolding insert_member
insert_member-row m s s' h = ground arith

module _ (s : Store) (convo : String) (now : ℕ) (all : List String) where
  -- A new row of a listed DID that had none.
  abbrev pub IsNewMember : Member → Type 0
  IsNewMember m =
      Any (λ did. m ≡ new_member convo now did) all
      × (exists (is_row convo m.member_did) s.members ≡ false)

  abbrev pub HasRow : Store → String → Type 0
  HasRow t did = exists (is_row convo did) t.members ≡ true

  -- So far: the rows stand on top of the first ones, and no welcome is stored.
  abbrev pub Adding : Store → Type 0
  Adding t = Grown IsNewMember s.members t.members × (t.welcomes ≡ s.welcomes)

  -- Nobody loses a row.
  abbrev pub Keeps : Store → Store → Type 0
  Keeps t u = (did : String) → HasRow t did → HasRow u did

  add_member-Adding :
      (did : String) (w : World Store)
      → Any (λ d. d ≡ did) all
      → Adding w.store
      → Ensures
          (λ _ w'. Adding w'.store × HasRow w'.store did × Keeps w.store w'.store)
          (add_member convo now did w)
  unfolding add_member exists
  add_member-Adding did w listed f =
      Ensures-bind (query _ (λ t. some (exists (is_row convo did) t.members, t)))
        (λ b.
          if b
          then pure tt
          else query (context_for "Failed to add member" did)
              (λ t. done (insert_member (new_member convo now did) t)))
        w (λ b w'. (exists (is_row convo did) w.store.members ≡ b) × (w.store ≡ w'.store)) _
        (Ensures-query _ _ w _ (λ a t same. (cc, cc))) (λ b w' h. branches b w' h.0 h.1)
    where
      member_of :
          (ds : List String)
          → Any (λ d. d ≡ did) ds
          → Any (λ d. new_member convo now did ≡ new_member convo now d) ds
      member_of [] h = elim h [ ]
      member_of (d ∷ ds) (inl e) = inl (ap (new_member convo now) (sym e))
      member_of (d ∷ ds) (inr h) = inr (member_of ds h)

      before :
          exists (is_row convo did) w.store.members ≡ false
          → exists (is_row convo did) s.members ≡ false
      before e =
          let (new, grown, qs) = f.0 in
          exists-suffix (is_row convo did) new s.members
            (ap (exists (is_row convo did)) (sym grown) ∙ e)

      branches :
          (b : Bool) (w' : World Store)
          → exists (is_row convo did) w.store.members ≡ b
          → w.store ≡ w'.store
          → Ensures
              (λ _ v. Adding v.store × HasRow v.store did × Keeps w.store v.store)
              ((if b
                  then pure tt
                  else query
                      (context_for "Failed to add member" did)
                      (λ t. done (insert_member (new_member convo now did) t)))
                w')
      branches true w' e same = rw (← same) (f, e, λ d h. h)
      branches false w' e same = Ensures-query _ _ w' _ (λ a t inserted.
          let k = insert_member-row _ w'.store t (done-some _ a t inserted) in
          rw (k, ← same)
            (
              (
                Grown-push IsNewMember (new_member convo now did) s.members w.store.members
                    (member_of all listed, before e) f.0,
                f.1,
              ),
              rw (eq_refl convo, eq_refl did) refl,
              λ d h. exists-push (is_row convo d) (new_member convo now did) w.store.members h,
            ))

  pub add_all-Adding :
      (dids : List String) (w : World Store)
      → All (λ did. Any (λ d. d ≡ did) all) dids
      → Adding w.store
      → Ensures
          (λ _ w'. Adding w'.store × All (HasRow w'.store) dids × Keeps w.store w'.store)
          (add_all convo now dids w)
  unfolding add_all
  add_all-Adding [] w listed f = (f, tt, λ d h. h)
  add_all-Adding (did ∷ dids) w (listed, rest) f =
      Ensures-bind (add_member convo now did) (λ _. add_all convo now dids) w _ _
        (add_member-Adding did w listed f)
        (λ _ u (g, row, keeps).
          After-mono (add_all convo now dids u) _ _ (λ _ _. Unit) (λ _ _. Unit)
            (λ _ v h. (h.0, (h.2 did row, h.1), λ d k. h.2 d (keeps d k))) (λ _ v h. tt)
            (add_all-Adding dids u rest g))

-- Every listed DID has a row afterwards; the new rows are of listed DIDs that had none, and they stand
-- on top of the rows that were there.
abbrev pub MembersAdded : String → ℕ → List String → Store → Store → Type 0
MembersAdded convo now dids s s' =
    Grown (IsNewMember s convo now dids) s.members s'.members
    × All (λ did. exists (is_row convo did) s'.members ≡ true) dids
