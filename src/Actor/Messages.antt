-- ===== src/Actor/Messages.antt =====
-- actors/conversation.rs: `handle_send_message`.
pub mod Outcome
pub mod Once
pub mod Returns
use mls_ds.Prelude.{
  ℕ, suc, ◌+◌, ◌*◌, ◌/◌, String, Bool, false, not, ◌&&◌, Option, none, some, List, [], ◌∷◌,
  if◌then◌else◌, str_eq, find, exists, leb, ◌^◌,
}
use mls_ds.Sql.{query, transaction, pure, new_id, Ending, commit, rollback, ◌>>=◌, ◌>>◌}
use mls_ds.Store.{Store, Member, Message, app_type, is_value, is_active, done}
use mls_ds.Store.Messages.{max_seq, insert_message}
use mls_ds.Actor.{context, ActorState, notify_new_message, Handler, try_send}

-- Microseconds in a second; a message expires after 30 days.
abbrev pub second : ℕ
second = 1_000_000

abbrev pub thirty_days : ℕ
thirty_days = 30 * 86_400 * second

-- Quantized to 2-second buckets: `(now.timestamp() / 2) * 2`.
unfoldable pub bucket : ℕ → ℕ
bucket now = now / second / 2 * 2

pub record Sent : Type 0 where
  pub sender_did : String
  pub ciphertext : List ℕ
  pub msg_id : String
  pub epoch : ℕ
  pub padded_size : ℕ
  pub idempotency_key : Option String

abbrev pub has_msg_id : String → String → Message → Bool
has_msg_id convo msg_id m = str_eq m.convo_id convo && is_value m.msg_id msg_id

abbrev pub has_key : String → Message → Bool
has_key key m = is_value m.idempotency_key key

abbrev pub identity : Option Message → Option (String × ℕ)
identity none = none
identity (some m) = some (m.id, m.created_at)

-- The SELECTs for an earlier message with this `msg_id`, or with this idempotency key.
unfoldable pub find_msg_id : String → String → Handler (Option (String × ℕ))
find_msg_id convo msg_id =
    query (context "Failed to check msg_id")
      (λ s. some (identity (find (has_msg_id convo msg_id) s.messages), s))

unfoldable pub find_key : Option String → Handler (Option (String × ℕ))
find_key none = pure none
find_key (some key) =
    query (context "Failed to check idempotency key")
      (λ s. some (identity (find (has_key key) s.messages), s))

abbrev pub sent_row : String → ℕ → Sent → String → ℕ → Message
sent_row convo now sent row_id seq = record {
  id = row_id;
  convo_id = convo;
  sender_did = none;
  message_type = app_type;
  epoch = sent.epoch;
  seq = seq;
  ciphertext = sent.ciphertext;
  created_at = now;
  expires_at = some (now + thirty_days);
  msg_id = some sent.msg_id;
  padded_size = some sent.padded_size;
  received_bucket_ts = some (bucket now);
  idempotency_key = sent.idempotency_key;
}

-- What the transaction did: a duplicate with its id and time, or a new row with its `seq`.
pub data Stored : Type 0 where
  duplicate : String → ℕ → Stored
  stored : String → ℕ → Stored

unfoldable pub insert_sent : String → ℕ → Sent → Handler (Ending Stored)
insert_sent convo now sent = do
  seq ←
      query (context "Failed to calculate sequence number")
        (λ s. some (suc (max_seq convo s.messages), s))
  row_id ← new_id
  query (context "Failed to insert message")
      (λ s. done (insert_message (sent_row convo now sent row_id seq) s))
  pure (commit (stored row_id seq))

unfoldable pub after_key : String → ℕ → Sent → Option (String × ℕ) → Handler (Ending Stored)
after_key convo now sent (some (id, at)) = pure (rollback (duplicate id at))
after_key convo now sent none = insert_sent convo now sent

unfoldable pub after_msg_id : String → ℕ → Sent → Option (String × ℕ) → Handler (Ending Stored)
after_msg_id convo now sent (some (id, at)) = pure (rollback (duplicate id at))
after_msg_id convo now sent none = find_key sent.idempotency_key >>= after_key convo now sent

unfoldable pub send_tx : String → ℕ → Sent → Handler (Ending Stored)
send_tx convo now sent = find_msg_id convo sent.msg_id >>= after_msg_id convo now sent

-- `user_did != $2`, which a NULL does not pass.
abbrev pub differs : Option String → String → Bool
differs none user = false
differs (some u) user = not (str_eq u user)

abbrev pub counts_unread : String → String → Member → Bool
counts_unread convo sender m = is_active convo m && differs m.user_did sender

-- UPDATE members SET unread_count = unread_count + 1 WHERE … user_did != $2 AND left_at IS NULL
unfoldable pub bump_unread : String → String → List Member → List Member
bump_unread convo sender [] = []
bump_unread convo sender (m ∷ ms) =
    (if counts_unread convo sender m then record m { unread_count = m.unread_count + 1 } else m)
    ∷ bump_unread convo sender ms

-- A row of which the count plus `n` is no INTEGER.
abbrev pub is_full : ℕ → Member → Bool
is_full n m = leb (2 ^ 31) (m.unread_count + n)

-- The statement, which fails as a whole where one of the counts leaves the INTEGERs.
unfoldable pub count_unread : String → String → Store → Option (Unit {0} × Store)
count_unread convo sender s =
    if exists (λ m. counts_unread convo sender m && is_full 1 m) s.members
    then none
    else some (tt, record s { members = bump_unread convo sender s.members })

unfoldable pub after_tx : ActorState → ℕ → Sent → Stored → Handler (ActorState × (String × ℕ))
after_tx st now sent (duplicate id at) = pure (st, (id, at))
after_tx st now sent (stored row_id seq) = do
  query (context "Failed to update unread counts") (count_unread st.convo_id sent.sender_did)
  let job = notify_new_message sent.msg_id sent.sender_did sent.ciphertext seq sent.epoch false
  pure (try_send job st, (row_id, now))

unfoldable pub handle_send_message : ActorState → ℕ → Sent → Handler (ActorState × (String × ℕ))
handle_send_message st now sent =
    transaction (context "Failed to begin transaction") (context "Failed to commit transaction")
      (send_tx st.convo_id now sent)
    >>= after_tx st now sent
