-- ===== src/Auth/Roles.antt =====
-- server/src/auth.rs: verify_is_admin, verify_is_member, count_admins and verify_is_moderator_or_admin,
-- each of them one statement on the table members. The table is `none` where the statement fails, and
-- `limit_1` is the row that the database takes for LIMIT 1.
pub mod Counted
mod Tests
use mls_ds.Prelude.{
  ℕ, String, Bool, true, false, ◌&&◌, ◌||◌, ◌==◌, not, Option, none, some, List, [], ◌∷◌, where_,
  length, str_eq,
}
use mls_ds.Prelude.Results.{Result, ok, err}

pub record MemberRole : Type 0 where
  pub convo_id : String
  pub member_did : String
  pub user_did : Option String
  pub is_admin : Bool
  pub is_moderator : Option Bool
  pub left_at : Option ℕ

pub data StatusCode : Type 0 where
  internal_server_error forbidden : StatusCode

abbrev pub Members : Type 0
Members = Option (List MemberRole)

abbrev pub Allowed : Type 0
Allowed = Result StatusCode (Unit {0})

abbrev pub is_did : String → Option String → Bool
is_did did none = false
is_did did (some d) = str_eq d did

abbrev pub is_here : Option ℕ → Bool
is_here none = true
is_here (some t) = false

-- The rows of a user who has not left.
abbrev pub is_row_of : String → String → MemberRole → Bool
is_row_of convo_id user_did r =
    str_eq r.convo_id convo_id
    && ((str_eq r.member_did user_did || is_did user_did r.user_did) && is_here r.left_at)

abbrev pub is_admin_of : String → MemberRole → Bool
is_admin_of convo_id r = str_eq r.convo_id convo_id && (r.is_admin && is_here r.left_at)

abbrev pub coalesce : Option Bool → Bool
coalesce none = false
coalesce (some b) = b

abbrev pub allow_if : Bool → Allowed
allow_if true = ok tt
allow_if false = err forbidden

module _ (limit_1 : List MemberRole → Option MemberRole) where
  abbrev pub on_admin : Option MemberRole → Allowed
  on_admin none = err forbidden
  on_admin (some r) = allow_if r.is_admin

  unfoldable pub verify_is_admin : Members → String → String → Allowed
  verify_is_admin none convo_id user_did = err internal_server_error
  verify_is_admin (some rows) convo_id user_did =
      on_admin (limit_1 (where_ (is_row_of convo_id user_did) rows))

  abbrev pub on_moderator : Option MemberRole → Allowed
  on_moderator none = err forbidden
  on_moderator (some r) = allow_if (r.is_admin || coalesce r.is_moderator)

  unfoldable pub verify_is_moderator_or_admin : Members → String → String → Allowed
  verify_is_moderator_or_admin none convo_id user_did = err internal_server_error
  verify_is_moderator_or_admin (some rows) convo_id user_did =
      on_moderator (limit_1 (where_ (is_row_of convo_id user_did) rows))

unfoldable pub verify_is_member : Members → String → String → Allowed
verify_is_member none convo_id user_did = err internal_server_error
verify_is_member (some rows) convo_id user_did =
    allow_if (not (length (where_ (is_row_of convo_id user_did) rows) == 0))

unfoldable pub count_admins : Members → String → Result StatusCode ℕ
count_admins none convo_id = err internal_server_error
count_admins (some rows) convo_id = ok (length (where_ (is_admin_of convo_id) rows))
