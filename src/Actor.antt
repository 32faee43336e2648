-- ===== src/Actor.antt =====
-- server/src/actors: the state of a conversation actor (conversation.rs) and its errors. The handlers
-- are in the modules below; messages.rs is `Handle`.
pub mod Membership
pub mod Messages
pub mod Unread
pub mod Handle
pub mod Invariant
pub mod Stale
mod Tests
use mls_ds.Prelude.{
  ℕ, String, Bool, Option, none, some, List, [], ◌∷◌, ◌++◌, ltb, if◌then◌else◌, length,
}
use mls_ds.Sql.{Exec}
use mls_ds.Store.{Store}

-- `anyhow::Error`: the text of the outermost context, or the epoch conflict of a commit.
pub data ActorError : Type 0 where
  context : String → ActorError
  context_for : String → String → ActorError
  epoch_conflict : String → ℕ → ActorError

pub data SideEffectJob : Type 0 where
  notify_new_message : String → String → List ℕ → ℕ → ℕ → Bool → SideEffectJob
  notify_system_message : String → String → SideEffectJob

-- `current_epoch` is a `u32`; the jobs are those in the channel that the worker has not taken.
pub record ActorState : Type 0 where
  pub convo_id : String
  pub current_epoch : ℕ
  pub unread_counts : List (String × ℕ)
  pub jobs : List SideEffectJob

-- The codecs of the packages `base64` and `hex`.
pub record Codec : Type 0 where
  pub base64_decode : String → Option (List ℕ)
  pub hex_decode : String → Option (List ℕ)

pub record KeyPackageHashEntry : Type 0 where
  pub did : String
  pub hash : String

abbrev pub Handler : Type 0 → Type 0
Handler A = Exec Store ActorError A

-- `side_effect_tx.try_send` on a channel for 100 jobs; a full one drops the job.
unfoldable pub try_send : SideEffectJob → ActorState → ActorState
try_send job st =
    if ltb (length st.jobs) 100 then record st { jobs = st.jobs ++ (job ∷ []) } else st
