-- ===== src/Actor/Membership.antt =====
-- actors/conversation.rs: `handle_add_members` and `handle_remove_member`, with
-- `try_advance_conversation_epoch_tx` of db.rs.
pub mod Effect
pub mod Commits
pub mod Rows
pub mod Added
pub mod Joined
pub mod Outcome
use mathlib.Core.Option
use mls_ds.Prelude.{
  ℕ, suc, String, false, Option, none, some, List, [], ◌∷◌, ◌==◌, if◌then◌else◌, str_eq, exists,
  find,
}
use mls_ds.Prelude.Results.{ok_or}
use mls_ds.Sql.{query, transaction, pure, lift, new_id, Ending, commit, ◌>>=◌, ◌>>◌}
use mls_ds.Store.{
  Store, Conversation, Member, Message, commit_type, Welcome, put_conversation, next_epoch, done,
  is_row, insert_member, insert_welcome,
}
use mls_ds.Store.Messages.{max_seq, insert_message}
use mls_ds.Actor.{
  context, context_for, epoch_conflict, ActorState, notify_system_message, Codec,
  KeyPackageHashEntry, Handler, try_send,
}

-- UPDATE conversations SET current_epoch = current_epoch + 1 … AND current_epoch = $3 RETURNING …
abbrev pub advance_row : ℕ → String → ℕ → Option Conversation → Store → Option (Option ℕ × Store)
advance_row now convo expected none s = some (none, s)
advance_row now convo expected (some c) s =
    if c.current_epoch == expected
    then Option.map
        (λ e. (some e, put_conversation s convo (record c { current_epoch = e; updated_at = now })))
        (next_epoch c.current_epoch)
    else some (none, s)

unfoldable pub try_advance_conversation_epoch : ℕ → String → ℕ → Handler (Option ℕ)
try_advance_conversation_epoch now convo expected =
    query (context "Failed to advance conversation epoch")
      (λ s. advance_row now convo expected (s.conversations convo) s)

abbrev pub commit_row : ActorState → ℕ → String → ℕ → ℕ → List ℕ → Message
commit_row st now msg_id epoch seq commit_bytes = record {
  id = msg_id;
  convo_id = st.convo_id;
  sender_did = none;
  message_type = commit_type;
  epoch = epoch;
  seq = seq;
  ciphertext = commit_bytes;
  created_at = now;
  expires_at = none;
  msg_id = none;
  padded_size = none;
  received_bucket_ts = none;
  idempotency_key = none;
}

-- The commit message, with the next sequence number of the conversation.
unfoldable pub insert_commit : ActorState → ℕ → List ℕ → String → ℕ → Handler (Option String × ℕ)
insert_commit st now commit_bytes msg_id epoch = do
  seq ←
      query (context "Failed to calculate sequence number")
        (λ s. some (suc (max_seq st.convo_id s.messages), s))
  query (context "Failed to insert commit message")
      (λ s. done (insert_message (commit_row st now msg_id epoch seq commit_bytes) s))
  pure (some msg_id, epoch)

unfoldable pub advance_and_insert : ActorState → ℕ → List ℕ → String → Handler (Option String × ℕ)
advance_and_insert st now commit_bytes msg_id = do
  advanced ← try_advance_conversation_epoch now st.convo_id st.current_epoch
  epoch ← lift (ok_or advanced (epoch_conflict st.convo_id st.current_epoch))
  insert_commit st now commit_bytes msg_id epoch

-- The block on the commit that both handlers start with: the id of the stored message, and the epoch.
unfoldable pub store_commit : ActorState → ℕ → Option (List ℕ) → Handler (Option String × ℕ)
store_commit st now none = pure (none, st.current_epoch)
store_commit st now (some commit_bytes) = new_id >>= advance_and_insert st now commit_bytes

abbrev pub new_member : String → ℕ → String → Member
new_member convo now did = record {
  convo_id = convo;
  member_did = did;
  user_did = none;
  joined_at = now;
  left_at = none;
  is_admin = false;
  needs_rejoin = false;
  unread_count = 0;
  ds_did = none;
}

-- A row of this DID, left or not, stops the insertion.
unfoldable pub add_member : String → ℕ → String → Handler (Unit {0})
add_member convo now did = do
  is_existing ←
      query (context "Failed to check existing membership")
        (λ s. some (exists (is_row convo did) s.members, s))
  if is_existing
      then pure tt
      else query (context_for "Failed to add member" did)
          (λ s. done (insert_member (new_member convo now did) s))

unfoldable pub add_all : String → ℕ → List String → Handler (Unit {0})
add_all convo now [] = pure tt
add_all convo now (did ∷ dids) = add_member convo now did >> add_all convo now dids

module _ (codec : Codec) where
  abbrev hash_for : Option (List KeyPackageHashEntry) → String → Option (List ℕ)
  hash_for none did = none
  hash_for (some hashes) did = elim (find (λ entry. str_eq entry.did did) hashes) [
    | none ↦ none
    | some entry ↦ codec.hex_decode entry.hash
  ]

  abbrev pub welcome_row :
      String → ℕ → Option (List KeyPackageHashEntry) → List ℕ → String → String → Welcome
  welcome_row convo now hashes welcome_data did welcome_id = record {
    id = welcome_id;
    convo_id = convo;
    recipient_did = did;
    welcome_data = welcome_data;
    key_package_hash = hash_for hashes did;
    created_at = now;
    consumed = false;
  }

  unfoldable pub store_welcomes :
      String → ℕ → Option (List KeyPackageHashEntry) → List ℕ → List String → Handler (Unit {0})
  store_welcomes convo now hashes welcome_data [] = pure tt
  store_welcomes convo now hashes welcome_data (did ∷ dids) = do
    welcome_id ← new_id
    query (context_for "Failed to store welcome message for" did)
        (λ s. done (insert_welcome (welcome_row convo now hashes welcome_data did welcome_id) s))
    store_welcomes convo now hashes welcome_data dids

  unfoldable pub welcome_all :
      String
      → ℕ
      → Option String
      → Option (List KeyPackageHashEntry)
      → List String
      → Handler (Unit {0})
  welcome_all convo now none hashes dids = pure tt
  welcome_all convo now (some welcome_b64) hashes dids = do
    welcome_data ←
        lift (ok_or (codec.base64_decode welcome_b64) (context "Invalid base64 welcome message"))
    store_welcomes convo now hashes welcome_data dids

-- What follows the transaction: the job for the fan-out of a commit, and the epoch.
abbrev pub announce : Option String → ActorState → ActorState
announce none st = st
announce (some msg_id) st = try_send (notify_system_message msg_id "commit") st

-- UPDATE members SET left_at = $1 WHERE convo_id = $2 AND member_did = $3
unfoldable pub mark_left : ℕ → String → String → List Member → List Member
mark_left now convo did [] = []
mark_left now convo did (m ∷ ms) =
    (if is_row convo did m then record m { left_at = some now } else m) ∷ mark_left now convo did ms

-- `HashMap::remove`
unfoldable pub remove_count : String → List (String × ℕ) → List (String × ℕ)
remove_count did [] = []
remove_count did ((d, n) ∷ rest) =
    let tail = remove_count did rest in if str_eq d did then tail else (d, n) ∷ tail

unfoldable pub add_members_tx :
    Codec
    → ActorState
    → ℕ
    → List String
    → Option (List ℕ)
    → Option String
    → Option (List KeyPackageHashEntry)
    → Handler (Ending (Option String × ℕ))
add_members_tx codec st now did_list commit_bytes welcome_message key_package_hashes = do
  stored ← store_commit st now commit_bytes
  add_all st.convo_id now did_list
  welcome_all codec st.convo_id now welcome_message key_package_hashes did_list
  pure (commit stored)

unfoldable pub handle_add_members :
    Codec
    → ActorState
    → ℕ
    → List String
    → Option (List ℕ)
    → Option String
    → Option (List KeyPackageHashEntry)
    → Handler (ActorState × ℕ)
handle_add_members codec st now did_list commit_bytes welcome_message key_package_hashes = do
  stored ←
      transaction (context "Failed to begin transaction") (context "Failed to commit transaction")
        (add_members_tx codec st now did_list commit_bytes welcome_message key_package_hashes)
  pure (record (announce stored.0 st) { current_epoch = stored.1 }, stored.1)

unfoldable pub remove_member_tx :
    ActorState → ℕ → String → Option (List ℕ) → Handler (Ending (Option String × ℕ))
remove_member_tx st now member_did commit_bytes = do
  stored ← store_commit st now commit_bytes
  query (context "Failed to mark member as left")
      (λ s. some (tt, record s { members = mark_left now st.convo_id member_did s.members }))
  pure (commit stored)

unfoldable pub handle_remove_member :
    ActorState → ℕ → String → Option (List ℕ) → Handler (ActorState × ℕ)
handle_remove_member st now member_did commit_bytes = do
  stored ←
      transaction (context "Failed to begin transaction") (context "Failed to commit transaction")
        (remove_member_tx st now member_did commit_bytes)
  let st' : ActorState = announce stored.0 st
  pure (
    record st' {
      current_epoch = stored.1;
      unread_counts = remove_count member_did st'.unread_counts;
    },
    stored.1,
  )
