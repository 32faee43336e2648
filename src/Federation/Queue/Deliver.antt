-- ===== src/Federation/Queue/Deliver.antt =====
-- federation/queue.rs: the worker. `Remote` is what a delivery asks outside the queue: the signer that
-- the caller passes, the JSON parser, the peers behind `OutboundClient`, the resolution of DIDs and of
-- hosts on the network (`validate_endpoint_url` with `validate_resolved_host_is_public`, and
-- `resolve_did`), and the packages that read keys.
use mls_ds.Prelude.{
  ℕ, ◌+◌, String, Bool, true, false, not, ◌&&◌, Option, none, some, List, [], ◌∷◌, length, take,
  where_, leb, ltb, if◌then◌else◌, bytes_eq,
}
use mls_ds.Prelude.Results.{Result, ok, err}
use mls_ds.Sql.{World, Exec, query, pure, throw, ◌>>=◌, ◌>>◌}
use mls_ds.Wire.{as_bytes}
use mls_ds.Auth.Types.{AuthError, DidDocument}
use mls_ds.Auth.Keys.{KeyParser, Extracted, found, panics, extract_p256_key}
use mls_ds.Federation.Signature.{Es256}
use mls_ds.Federation.Ack.{DeliveryAck, verify}
use mls_ds.Federation.Sequencer.{SqlError, database}
use mls_ds.Federation.Endpoint.{did_web_to_endpoint, is_blank}
use mls_ds.Federation.Queue.{
  OutboundError, request_failed, is_retryable, outbound, auth_signing_failed, invalid_payload,
  rejected, QueueItem, QueueRow, Endpoint, AckRow, Tables, Job, is_pending, mark_delivered,
  mark_failed, schedule_retry, backoff_delay,
}

pub record DsResponse : Type 0 where
  pub accepted : Bool
  pub message : Option String
  pub ack : Option DeliveryAck

abbrev pub endpoint_column : ℕ → Option Endpoint → Option String
endpoint_column now none = none
endpoint_column now (some e) = if ltb now e.expires_at then some e.endpoint else none

-- `.await.ok().flatten()`
abbrev pub ok_flatten : Result SqlError (Option String) → Option String
ok_flatten (ok a) = a
ok_flatten (err e) = none

abbrev pub same_key : AckRow → AckRow → Bool
same_key new old =
    bytes_eq old.ack.convo_id new.ack.convo_id
    && bytes_eq old.ack.message_id new.ack.message_id
    && bytes_eq old.ack.receiver_ds_did new.ack.receiver_ds_did

-- INSERT … ON CONFLICT (convo_id, message_id, target_ds_did) DO UPDATE: the epoch stays the old row's.
unfoldable pub upsert_ack : AckRow → List AckRow → List AckRow
upsert_ack new [] = new ∷ []
upsert_ack new (old ∷ rows) =
    let rest = upsert_ack new rows in
    if same_key new old
    then record new { ack = record new.ack { epoch = old.ack.epoch } } ∷ rows
    else old ∷ rest

-- db.rs
unfoldable pub store_delivery_ack : DeliveryAck → Bool → Job (Unit {0})
store_delivery_ack ack verified = query database (λ s. some (
  tt,
  record s {
    delivery_acks = upsert_ack (record { ack = ack; verified = verified }) s.delivery_acks;
  },
))

-- What ends the worker's batch: an error of its first statement, or a panic.
pub data WorkerError : Type 0 where
  failed : SqlError → WorkerError
  panicked : WorkerError

abbrev pub Work : Type 0 → Type 0
Work A = Exec Tables WorkerError A

-- `let _ = …` and `if let Err(e) = … { warn!(…) }`
abbrev pub ignore : {A : Type 0} → Job A → Work (Unit {0})
ignore m w = (ok tt, (m w).1)

abbrev pub reason_of : Option String → String
reason_of none = "rejected"
reason_of (some m) = m

module _ (e : Es256) where
  pub record Remote : Type 0 where
    pub auth_sign : String → String → Result String String
    pub from_slice : List ℕ → Option (List ℕ)
    pub call_procedure : String → String → String → List ℕ → Result OutboundError DsResponse
    pub validate : String → Result String (Unit {0})
    pub resolve_did : List ℕ → Result AuthError DidDocument
    pub keys : KeyParser e.VerifyingKey

  module _ (remote : Remote) (now : ℕ) where
    abbrev pub validated : String → Result String (Unit {0}) → Exec Tables OutboundError String
    validated endpoint (ok a) = pure endpoint
    validated endpoint (err reason) = throw (request_failed endpoint reason)

    abbrev pub derived : QueueItem → Option String → Exec Tables OutboundError String
    derived item none = throw (
        request_failed item.target_ds_did
          "target endpoint missing and DS endpoint could not be resolved")
    derived item (some endpoint) = validated endpoint (remote.validate endpoint)

    abbrev pub cached : QueueItem → Option String → Exec Tables OutboundError String
    unfolding did_web_to_endpoint
    cached item (some endpoint) = pure endpoint
    cached item none = derived item (did_web_to_endpoint item.target_ds_did)

    abbrev pub find_endpoint : QueueItem → Exec Tables OutboundError String
    find_endpoint item w =
        let r : Result SqlError (Option String) × World Tables =
          query database (λ s. some (endpoint_column now (s.ds_endpoints item.target_ds_did), s))
            w in
        cached item (ok_flatten r.0) r.1

    unfoldable pub resolve_target_endpoint : QueueItem → Exec Tables OutboundError String
    resolve_target_endpoint item =
        if not (is_blank item.target_endpoint)
        then pure item.target_endpoint
        else find_endpoint item

    abbrev pub extracted_ack : DeliveryAck → Extracted e.VerifyingKey → Work (Unit {0})
    extracted_ack ack (found (some key)) =
        if verify e ack key then ignore (store_delivery_ack ack true) else pure tt
    extracted_ack ack (found none) = ignore (store_delivery_ack ack false)
    extracted_ack ack panics = throw panicked

    abbrev pub keyed_ack : DeliveryAck → Result AuthError DidDocument → Work (Unit {0})
    keyed_ack ack (ok did_doc) = extracted_ack ack (extract_p256_key remote.keys did_doc)
    keyed_ack ack (err x) = ignore (store_delivery_ack ack false)

    abbrev pub fields_valid : QueueItem → DeliveryAck → Bool
    fields_valid item ack =
        bytes_eq ack.receiver_ds_did (as_bytes item.target_ds_did)
        && bytes_eq ack.convo_id (as_bytes item.convo_id)

    abbrev pub on_ack : QueueItem → Option DeliveryAck → Work (Unit {0})
    on_ack item none = pure tt
    on_ack item (some ack) =
        if fields_valid item ack
        then keyed_ack ack (remote.resolve_did ack.receiver_ds_did)
        else pure tt

    -- No error of the acknowledgment's part stops what follows, but a panic does.
    abbrev pub accepted_with : QueueItem → Option DeliveryAck → Work (Unit {0})
    accepted_with item ack = on_ack item ack >> ignore (mark_delivered item.id)

    abbrev pub on_response : QueueItem → Result OutboundError DsResponse → Work (Unit {0})
    on_response item (ok resp) =
        if resp.accepted
        then accepted_with item resp.ack
        else ignore (mark_failed item.id (rejected (reason_of resp.message)))
    on_response item (err x) =
        if is_retryable x && ltb item.retry_count item.max_retries
        then ignore (
            schedule_retry now item.id (item.retry_count + 1) (outbound x)
              (backoff_delay item.retry_count))
        else ignore (mark_failed item.id (outbound x))

    abbrev pub on_body : QueueItem → String → String → Option (List ℕ) → Work (Unit {0})
    on_body item endpoint token none = ignore (mark_failed item.id invalid_payload)
    on_body item endpoint token (some body) =
        on_response item (remote.call_procedure endpoint item.method token body)

    abbrev pub on_token : QueueItem → String → Result String String → Work (Unit {0})
    on_token item endpoint (err x) = ignore (mark_failed item.id (auth_signing_failed x))
    on_token item endpoint (ok token) = on_body item endpoint token (remote.from_slice item.payload)

    abbrev pub on_endpoint : QueueItem → Result OutboundError String → Work (Unit {0})
    on_endpoint item (err x) = ignore (mark_failed item.id (outbound x))
    on_endpoint item (ok endpoint) =
        on_token item endpoint (remote.auth_sign item.target_ds_did item.method)

    unfoldable pub process_item : QueueItem → Work (Unit {0})
    process_item item w = let r = resolve_target_endpoint item w in on_endpoint item r.0 r.1

    abbrev pub is_due : QueueRow → Bool
    is_due r = is_pending r.status && leb r.next_retry_at now

    -- `ORDER BY next_retry_at ASC`; rows with one time come in an order that the database does not promise.
    unfoldable pub insert_due : QueueRow → List QueueRow → List QueueRow
    insert_due r [] = r ∷ []
    insert_due r (x ∷ xs) =
        let rest = insert_due r xs in
        if leb x.next_retry_at r.next_retry_at then x ∷ rest else r ∷ x ∷ xs

    unfoldable pub order_due : List QueueRow → List QueueRow
    order_due [] = []
    order_due (r ∷ rs) = insert_due r (order_due rs)

    unfoldable pub process_all : List QueueRow → Work (Unit {0})
    process_all [] = pure tt
    process_all (r ∷ rs) = process_item r.item >> process_all rs

    unfoldable pub process_pending_batch : Work ℕ
    process_pending_batch = do
      rows ←
          query (failed database)
            (λ s. some (take 10 (order_due (where_ is_due s.outbound_queue)), s))
      process_all rows
      pure (length rows)
