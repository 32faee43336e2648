-- ===== src/Auth/Roles/Tests.antt =====
-- An admin on two devices and a member who left.
use mls_ds.Prelude.{
  ◌≡◌, refl, ◌≤◌, ℕ, String, true, false, Bool, Option, none, some, List, [], ◌∷◌, Any, where_, inl,
}
use mls_ds.Prelude.Results.{ok, err}
use mls_ds.Auth.Roles.{
  MemberRole, Members, forbidden, verify_is_admin, verify_is_moderator_or_admin, verify_is_member,
  count_admins,
}
use mls_ds.Auth.Roles.Counted.{verify_is_admin-count_admins}

abbrev row : String → String → Bool → Option ℕ → MemberRole
row device user admin left = record {
  convo_id = "c";
  member_did = device;
  user_did = some user;
  is_admin = admin;
  is_moderator = none;
  left_at = left;
}

abbrev members : Members
members = some (
    row "did:a#1" "did:a" true none
    ∷ row "did:a#2" "did:a" true none
    ∷ row "did:b" "did:b" false (some 5)
    ∷ [])

abbrev head : List MemberRole → Option MemberRole
head [] = none
head (r ∷ rs) = some r

head_is_among :
    (rows : List MemberRole) (r : MemberRole) → head rows ≡ some r → Any (λ x. x ≡ r) rows
head_is_among [] r h = absurd (cc)
head_is_among (x ∷ rows) r h = inl (cc)

left : verify_is_moderator_or_admin head members "c" "did:b" ≡ err forbidden
unfolding verify_is_moderator_or_admin where_
left = refl

admin : verify_is_admin head members "c" "did:a" ≡ ok tt
unfolding verify_is_admin where_
admin = refl

verify_is_admin-count_admins_example :
    (verify_is_member members "c" "did:a" ≡ ok tt)
    × (n : ℕ) × (count_admins members "c" ≡ ok n)
    × (1 ≤ n)
verify_is_admin-count_admins_example =
    verify_is_admin-count_admins head members "c" "did:a" head_is_among admin
