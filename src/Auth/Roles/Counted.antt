-- ===== src/Auth/Roles/Counted.antt =====
-- What the role checks say of each other.
use mls_ds.Prelude.{
  Any, ℕ, ◌≤◌, String, ◌≡◌, refl, subst, Bool, true, false, ◌||◌, ◌==◌, not, Option, none, some,
  List, [], ◌∷◌, where_, length, str_eq, both, arith, Bool-cases, inl, inr, if◌then◌else◌,
}
use mls_ds.Prelude.Results.{ok}
use mls_ds.Auth.Roles.{
  MemberRole, Members, is_did, is_row_of, is_admin_of, allow_if, on_admin, verify_is_admin,
  verify_is_member, count_admins,
}

Any-where_ :
    (p : MemberRole → Bool) (r : MemberRole) (rows : List MemberRole)
    → Any (λ x. x ≡ r) (where_ p rows)
    → Any (λ x. x ≡ r) rows × (p r ≡ true)
unfolding where_
Any-where_ p r [] h = elim h [ ]
Any-where_ p r (x ∷ rows) h = go (p x) refl (Any-where_ p r rows) h
  where
    go :
        (b : Bool)
        → p x ≡ b
        → (Any (λ y. y ≡ r) (where_ p rows) → Any (λ y. y ≡ r) rows × (p r ≡ true))
        → Any (λ y. y ≡ r) (if b then x ∷ where_ p rows else where_ p rows)
        → Any (λ y. y ≡ r) (x ∷ rows) × (p r ≡ true)
    go true e rest (inl same) = (inl same, subst (λ y. p y ≡ true) same e)
    go true e rest (inr k) = let s = rest k in (inr s.0, s.1)
    go false e rest k = let s = rest k in (inr s.0, s.1)

length-where_ :
    (q : MemberRole → Bool) (r : MemberRole) (rows : List MemberRole)
    → Any (λ x. x ≡ r) rows
    → q r ≡ true
    → 1 ≤ length (where_ q rows)
unfolding where_
length-where_ q r [] h e = elim h [ ]
length-where_ q r (x ∷ rows) (inl same) e = let t : q x ≡ true = (rw same e) in rw t (omega arith)
length-where_ q r (x ∷ rows) (inr k) e = elim (Bool-cases (q x)) [
  | inl t ↦ rw t (omega arith)
  | inr f ↦ rw f (length-where_ q r rows k e)
]

is_positive : (n : ℕ) → 1 ≤ n → not (n == 0) ≡ true
is_positive n h = ground arith

allowed : (b : Bool) → allow_if b ≡ ok tt → b ≡ true
allowed true h = refl
allowed false h = cc

is_row_of-is_admin_of :
    (convo_id user_did : String) (r : MemberRole)
    → is_row_of convo_id user_did r ≡ true
    → r.is_admin ≡ true
    → is_admin_of convo_id r ≡ true
is_row_of-is_admin_of convo_id user_did r row admin =
    let (here, rest) = both (str_eq r.convo_id convo_id) _ row in
    let (named, stays) = both (str_eq r.member_did user_did || is_did user_did r.user_did) _ rest in
    rw (here, admin, stays) refl

module _ (limit_1 : List MemberRole → Option MemberRole) where
  -- Where LIMIT 1 takes one of the rows, a user whom `verify_is_admin` lets in is one whom
  -- `verify_is_member` lets in, and `count_admins` counts somebody.
  pub verify_is_admin-count_admins :
      (members : Members) (convo_id user_did : String)
      → ((rows : List MemberRole) (r : MemberRole) → limit_1 rows ≡ some r → Any (λ x. x ≡ r) rows)
      → verify_is_admin limit_1 members convo_id user_did ≡ ok tt
      → (verify_is_member members convo_id user_did ≡ ok tt)
        × (n : ℕ) × (count_admins members convo_id ≡ ok n)
        × (1 ≤ n)
  unfolding verify_is_admin verify_is_member count_admins
  verify_is_admin-count_admins none convo_id user_did law h = absurd (cc)
  verify_is_admin-count_admins (some rows) convo_id user_did law h =
      go (limit_1 (where_ (is_row_of convo_id user_did) rows)) refl h
    where
      go :
          (o : Option MemberRole)
          → limit_1 (where_ (is_row_of convo_id user_did) rows) ≡ o
          → on_admin limit_1 o ≡ ok tt
          → (allow_if (not (length (where_ (is_row_of convo_id user_did) rows) == 0)) ≡ ok tt)
            × (n : ℕ) × (count_admins (some rows) convo_id ≡ ok n)
            × (1 ≤ n)
      go none e k = absurd (cc)
      go (some r) e k =
          let of_rows = Any-where_ (is_row_of convo_id user_did) r rows (law _ r e) in
          let admin = allowed r.is_admin k in
          (
            rw
                (is_positive (length (where_ (is_row_of convo_id user_did) rows))
                  (length-where_ (is_row_of convo_id user_did) r rows of_rows.0 of_rows.1))
                refl,
            length (where_ (is_admin_of convo_id) rows),
            refl,
            length-where_ (is_admin_of convo_id) r rows of_rows.0
                (is_row_of-is_admin_of convo_id user_did r of_rows.1 admin),
          )
