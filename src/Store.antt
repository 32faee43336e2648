-- ===== src/Store.antt =====
-- The tables of server/migrations that the modelled code reads and writes, with their constraints:
-- conversations, members, messages and welcome_messages. A time is a number of microseconds; an
-- INTEGER is the bit pattern of an `i32`; columns that the modelled code neither reads nor writes are
-- left out. A table with a lookup by primary key alone is a function, any other a list of rows, the
-- newest first.
pub mod Messages
use mls_ds.Prelude.{
  ℕ, suc, ◌+◌, ◌-◌, ◌^◌, max, String, Bool, true, false, not, ◌&&◌, ◌||◌, Option, none, some, List,
  [], ◌∷◌, ◌==◌, if◌then◌else◌, str_eq, exists, bytes_eq,
}

pub record Conversation : Type 0 where
  pub current_epoch : ℕ
  pub sequencer_ds : Option String
  pub updated_at : ℕ
  pub group_info : Option (List ℕ)
  pub group_info_epoch : Option ℕ

pub record Member : Type 0 where
  pub convo_id : String
  pub member_did : String
  pub user_did : Option String
  pub joined_at : ℕ
  pub left_at : Option ℕ
  pub is_admin : Bool
  pub needs_rejoin : Bool
  pub unread_count : ℕ
  pub ds_did : Option String

pub data MessageType : Type 0 where
  app_type commit_type : MessageType

pub record Message : Type 0 where
  pub id : String
  pub convo_id : String
  pub sender_did : Option String
  pub message_type : MessageType
  pub epoch : ℕ
  pub seq : ℕ
  pub ciphertext : List ℕ
  pub created_at : ℕ
  pub expires_at : Option ℕ
  pub msg_id : Option String
  pub padded_size : Option ℕ
  pub received_bucket_ts : Option ℕ
  pub idempotency_key : Option String

pub record Welcome : Type 0 where
  pub id : String
  pub convo_id : String
  pub recipient_did : String
  pub welcome_data : List ℕ
  pub key_package_hash : Option (List ℕ)
  pub created_at : ℕ
  pub consumed : Bool

pub record Store : Type 0 where
  pub conversations : String → Option Conversation
  pub members : List Member
  pub messages : List Message
  pub welcomes : List Welcome

abbrev pub is_some : {A : Type 0} → Option A → Bool
is_some none = false
is_some (some a) = true

-- `col = $1` where the column may be NULL, which no test passes.
abbrev pub is_value : Option String → String → Bool
is_value none s = false
is_value (some t) s = str_eq t s

-- UPDATE of the row with primary key `id`.
abbrev pub put_conversation : Store → String → Conversation → Store
put_conversation s id c = record s {
  conversations = λ j. if str_eq id j then some c else s.conversations j;
}

-- `convo_id = $1 AND left_at IS NULL`
abbrev pub is_active : String → Member → Bool
is_active convo m = str_eq m.convo_id convo && not (is_some m.left_at)

abbrev pub is_row : String → String → Member → Bool
is_row convo did m = str_eq m.convo_id convo && str_eq m.member_did did

-- `SET current_epoch = current_epoch + 1` on an INTEGER: an error beyond the largest `i32`.
abbrev pub next_epoch : ℕ → Option ℕ
next_epoch e = if e == 2 ^ 31 - 1 then none else some (if e == 2 ^ 32 - 1 then 0 else e + 1)

-- INSERT INTO members; `none` where the primary key or the foreign key refuses the row.
unfoldable pub insert_member : Member → Store → Option Store
insert_member m s =
    if is_some (s.conversations m.convo_id)
      && not (exists (is_row m.convo_id m.member_did) s.members)
    then some (record s { members = m ∷ s.members })
    else none

-- `COALESCE(key_package_hash, '\x00'::bytea)`
abbrev pub hash_key : Option (List ℕ) → List ℕ
hash_key none = 0 ∷ []
hash_key (some h) = h

-- The row stands in the partial unique index `idx_welcome_messages_unique` at the key of `new`.
abbrev pub same_welcome : Welcome → Welcome → Bool
same_welcome new old =
    not old.consumed
    && str_eq old.convo_id new.convo_id
    && str_eq old.recipient_did new.recipient_did
    && bytes_eq (hash_key old.key_package_hash) (hash_key new.key_package_hash)

-- INSERT INTO welcome_messages … ON CONFLICT … DO NOTHING.
unfoldable pub insert_welcome : Welcome → Store → Option Store
insert_welcome m s =
    if exists (same_welcome m) s.welcomes
    then some s
    else if is_some (s.conversations m.convo_id) && not (exists (λ o. str_eq o.id m.id) s.welcomes)
    then some (record s { welcomes = m ∷ s.welcomes })
    else none

-- The result of a statement that returns nothing.
abbrev pub done : Option Store → Option (Unit {0} × Store)
done none = none
done (some s) = some (tt, s)
