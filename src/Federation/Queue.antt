-- ===== src/Federation/Queue.antt =====
-- federation/queue.rs: the tables of the outbound queue, the statements on them and the delays; the
-- worker is `Deliver`. A time is a number of seconds, a count a non-negative `i32`. A text that is made
-- for `last_error` stands as its parts.
pub mod Deliver
pub mod Delays
pub mod Fate
pub mod Bounds
pub mod Batch
pub mod Drain
pub mod Acks
mod Tests
use mls_ds.Prelude.{
  ℕ, ◌+◌, ◌-◌, ◌*◌, ◌^◌, min, String, Bool, true, false, not, ◌&&◌, ◌||◌, Option, none, some, List,
  [], ◌∷◌, length, where_, map, str_eq, ltb, leb, ◌==◌, if◌then◌else◌, bytes_eq,
}
use mls_ds.Sql.{World, Exec, query, pure, new_id, ◌>>=◌, ◌>>◌}
use mls_ds.Federation.Ack.{DeliveryAck}
use mls_ds.Federation.Sequencer.{SqlError, database}

-- federation/outbound.rs
pub data OutboundError : Type 0 where
  connection_failed timeout request_failed : String → String → OutboundError
  remote_error : ℕ → String → String → String → OutboundError
  invalid_response : String → OutboundError

unfoldable pub is_retryable : OutboundError → Bool
is_retryable (connection_failed endpoint reason) = true
is_retryable (timeout endpoint method) = true
is_retryable (request_failed endpoint reason) = true
is_retryable (remote_error status body endpoint method) = leb 500 status || status == 429
is_retryable (invalid_response reason) = false

pub data LastError : Type 0 where
  outbound : OutboundError → LastError
  auth_signing_failed : String → LastError
  invalid_payload : LastError
  rejected : String → LastError
  enqueued : String → LastError

pub data QueueStatus : Type 0 where
  pending delivered failed : QueueStatus

abbrev pub is_pending : QueueStatus → Bool
is_pending pending = true
is_pending delivered = false
is_pending failed = false

pub record QueueItem : Type 0 where
  pub id : String
  pub target_ds_did : String
  pub target_endpoint : String
  pub method : String
  pub payload : List ℕ
  pub convo_id : String
  pub retry_count : ℕ
  pub max_retries : ℕ

pub record QueueRow : Type 0 where
  pub item : QueueItem
  pub created_at : ℕ
  pub next_retry_at : ℕ
  pub last_error : Option LastError
  pub status : QueueStatus

pub record Endpoint : Type 0 where
  pub endpoint : String
  pub expires_at : ℕ

pub record AckRow : Type 0 where
  pub ack : DeliveryAck
  pub verified : Bool

pub record Tables : Type 0 where
  pub outbound_queue : List QueueRow
  pub ds_endpoints : String → Option Endpoint
  pub delivery_acks : List AckRow

abbrev pub Job : Type 0 → Type 0
Job A = Exec Tables SqlError A

-- UPDATE outbound_queue … WHERE id = $1
unfoldable pub update : (QueueRow → QueueRow) → String → List QueueRow → List QueueRow
update f id [] = []
update f id (r ∷ rs) = (if str_eq r.item.id id then f r else r) ∷ update f id rs

abbrev pub update_row : (QueueRow → QueueRow) → String → Job (Unit {0})
update_row f id =
    query database (λ s. some (tt, record s { outbound_queue = update f id s.outbound_queue }))

abbrev pub set_delivered : QueueRow → QueueRow
set_delivered r = record r { status = delivered }

abbrev pub set_failed : LastError → QueueRow → QueueRow
set_failed e r = record r { status = failed; last_error = some e }

abbrev pub set_retry : ℕ → LastError → ℕ → QueueRow → QueueRow
set_retry count e at r = record r {
  item = record r.item { retry_count = count };
  last_error = some e;
  next_retry_at = at;
}

abbrev pub mark_delivered : String → Job (Unit {0})
mark_delivered id = update_row set_delivered id

abbrev pub mark_failed : String → LastError → Job (Unit {0})
mark_failed id e = update_row (set_failed e) id

abbrev pub schedule_retry : ℕ → String → ℕ → LastError → ℕ → Job (Unit {0})
schedule_retry now id new_count e delay = update_row (set_retry new_count e (now + delay)) id

abbrev new_row : ℕ → String → String → String → String → List ℕ → String → String → QueueRow
new_row now id target_ds_did target_endpoint method payload convo_id error_msg = record {
  item = record {
    id = id;
    target_ds_did = target_ds_did;
    target_endpoint = target_endpoint;
    method = method;
    payload = payload;
    convo_id = convo_id;
    retry_count = 0;
    max_retries = 5;
  };
  created_at = now;
  next_retry_at = now + 5;
  last_error = some (enqueued error_msg);
  status = pending;
}

unfoldable pub enqueue : ℕ → String → String → String → List ℕ → String → String → Job String
enqueue now target_ds_did target_endpoint method payload convo_id error_msg = do
  id ← new_id
  query database (λ s. some (
    tt,
    record s {
      outbound_queue =
          new_row now id target_ds_did target_endpoint method payload convo_id error_msg
          ∷ s.outbound_queue;
    },
  ))
  pure id

abbrev is_old : ℕ → ℕ → QueueRow → Bool
is_old now max_age_hours r =
    not (is_pending r.status) && ltb (r.created_at + 3600 * max_age_hours) now

-- DELETE …, and how many rows it deletes.
unfoldable pub cleanup_old : ℕ → ℕ → Job ℕ
cleanup_old now max_age_hours = query database (λ s. some (
  length (where_ (is_old now max_age_hours) s.outbound_queue),
  record s { outbound_queue = where_ (λ r. not (is_old now max_age_hours r)) s.outbound_queue },
))

-- `base.saturating_mul(2u64.saturating_pow(retry_count as u32))`, at most 300.
unfoldable pub backoff_delay : ℕ → ℕ
backoff_delay retry_count = min (min (5 * min (2 ^ retry_count) (2 ^ 64 - 1)) (2 ^ 64 - 1)) 300
