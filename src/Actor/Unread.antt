-- ===== src/Actor/Unread.antt =====
-- actors/conversation.rs: `handle_increment_unread` and `handle_reset_unread`.
pub mod Frames
use mls_ds.Prelude.{
  ℕ, ◌+◌, ◌%◌, ◌^◌, String, Bool, ◌&&◌, none, some, List, Option, exists, [], ◌∷◌, ◌==◌,
  if◌then◌else◌, str_eq, where_,
}
use mls_ds.Prelude.Results.{Result, ok, err}
use mls_ds.Sql.{query, pure, attempt, ◌>>=◌, ◌>>◌}
use mls_ds.Store.{Store, Member, is_value, is_active, is_row}
use mls_ds.Actor.Messages.{is_full}
use mls_ds.Actor.{ActorError, context, ActorState, Handler}

-- `unread_counts` as a `HashMap<String, u32>`.
unfoldable pub get_count : String → List (String × ℕ) → ℕ
get_count did [] = 0
get_count did ((d, n) ∷ rest) = if str_eq d did then n else get_count did rest

unfoldable pub put_count : String → ℕ → List (String × ℕ) → List (String × ℕ)
put_count did v [] = (did, v) ∷ []
put_count did v ((d, n) ∷ rest) =
    if str_eq d did then (did, v) ∷ rest else (d, n) ∷ put_count did v rest

-- UPDATE members SET unread_count = unread_count + 10 WHERE convo_id = $1 AND member_did = $2
unfoldable pub flush_rows : String → String → List Member → List Member
flush_rows convo did [] = []
flush_rows convo did (m ∷ ms) =
    (if is_row convo did m then record m { unread_count = m.unread_count + 10 } else m)
    ∷ flush_rows convo did ms

-- The statement, which fails as a whole where a count leaves the INTEGERs.
unfoldable pub flush_unread : String → String → Store → Option (Unit {0} × Store)
flush_unread convo did s =
    if exists (λ m. is_row convo did m && is_full 10 m) s.members
    then none
    else some (tt, record s { members = flush_rows convo did s.members })

-- Every tenth increment of a member is written; the count starts again only if that succeeds.
unfoldable pub flushed :
    String → ℕ → List (String × ℕ) → Result ActorError (Unit {0}) → List (String × ℕ)
flushed did count counts (ok _) = put_count did 0 counts
flushed did count counts (err _) = put_count did count counts

unfoldable pub increment_member : String → String → List (String × ℕ) → Handler (List (String × ℕ))
increment_member convo did counts =
    let count = (get_count did counts + 1) % 2 ^ 32 in
    if count % 10 == 0
    then (attempt (query (context "Failed to sync unread count") (flush_unread convo did)) >>= λ r.
        pure (flushed did count counts r))
    else pure (put_count did count counts)

unfoldable pub increment_all :
    String → String → List Member → List (String × ℕ) → Handler (List (String × ℕ))
increment_all convo sender [] counts = pure counts
increment_all convo sender (m ∷ ms) counts =
    (if is_value m.user_did sender then pure counts else increment_member convo m.member_did counts)
    >>= increment_all convo sender ms

unfoldable pub on_rows :
    ActorState → String → Result ActorError (List Member) → Handler (List (String × ℕ))
on_rows st sender (ok members) = increment_all st.convo_id sender members st.unread_counts
on_rows st sender (err e) = pure st.unread_counts

unfoldable pub handle_increment_unread : ActorState → String → Handler ActorState
handle_increment_unread st sender = do
  rows ← attempt (
      query (context "Failed to get members")
        (λ s. some (where_ (is_active st.convo_id) s.members, s)))
  counts ← on_rows st sender rows
  pure (record st { unread_counts = counts })

abbrev pub of_user : String → String → Member → Bool
of_user convo user m = is_active convo m && is_value m.user_did user

-- UPDATE members SET unread_count = 0 WHERE convo_id = $1 AND user_did = $2 AND left_at IS NULL
unfoldable pub clear_unread : String → String → List Member → List Member
clear_unread convo user [] = []
clear_unread convo user (m ∷ ms) =
    (if of_user convo user m then record m { unread_count = 0 } else m) ∷ clear_unread convo user ms

unfoldable pub zero_counts : List Member → List (String × ℕ) → List (String × ℕ)
zero_counts [] counts = counts
zero_counts (m ∷ ms) counts = zero_counts ms (put_count m.member_did 0 counts)

unfoldable pub handle_reset_unread : ActorState → String → Handler ActorState
handle_reset_unread st user = do
  query (context "Failed to reset unread count in database")
      (λ s. some (tt, record s { members = clear_unread st.convo_id user s.members }))
  devices ←
      query (context "Failed to fetch device DIDs")
        (λ s. some (where_ (of_user st.convo_id user) s.members, s))
  pure (record st { unread_counts = zero_counts devices st.unread_counts })
