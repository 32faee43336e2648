-- ===== src/Federation/Queue/Fate.antt =====
-- What one attempt to deliver an item does to the queue.
use mls_ds.Prelude.{
  ℕ, ◌+◌, ◌<◌, String, ◌≡◌, refl, ap, sym, ◌∙◌, Bool, true, false, ◌&&◌, Option, none, some, List,
  if◌then◌else◌, Bool-cases, inl, inr, ◌⊎◌, ltb, ltb→lt,
}
use mls_ds.Prelude.Results.{Result, ok, err}
use mls_ds.Sql.{World, query, continue}
use mls_ds.Auth.Types.{AuthError, DidDocument}
use mls_ds.Auth.Keys.{Extracted, found, panics, extract_p256_key}
use mls_ds.Federation.Signature.{Es256}
use mls_ds.Federation.Ack.{DeliveryAck, verify}
use mls_ds.Federation.Endpoint.{did_web_to_endpoint, is_blank}
use mls_ds.Federation.Sequencer.{database}
use mls_ds.Federation.Queue.{
  OutboundError, is_retryable, LastError, outbound, rejected, invalid_payload, auth_signing_failed,
  QueueItem, QueueRow, Tables, update, update_row, set_delivered, set_failed, set_retry,
  mark_delivered, mark_failed, schedule_retry, backoff_delay,
}
use mls_ds.Federation.Queue.Deliver.{
  DsResponse, Remote, accepted_with, reason_of, cached, derived, validated, endpoint_column,
  find_endpoint, upsert_ack, ignore, store_delivery_ack, resolve_target_endpoint, on_ack,
  extracted_ack, keyed_ack, WorkerError, panicked, on_response, on_body, on_token, on_endpoint,
  process_item, fields_valid,
}

-- The attempt ends in one of these; `lost` needs a statement that fails.
pub data Fate (item : QueueItem) (now : ℕ) (fails : ℕ → Bool) (rows rows' : List QueueRow)
    : Type 0 where
  lost : (n : ℕ) → fails n ≡ true → rows' ≡ rows → Fate item now fails rows rows'
  delivered : rows' ≡ update set_delivered item.id rows → Fate item now fails rows rows'
  failed :
      (x : LastError) → rows' ≡ update (set_failed x) item.id rows → Fate item now fails rows rows'
  retried :
      (x : OutboundError)
      → is_retryable x ≡ true
      → item.retry_count < item.max_retries
      → rows'
        ≡ update
            (set_retry (item.retry_count + 1) (outbound x) (now + backoff_delay item.retry_count))
            item.id
            rows
      → Fate item now fails rows rows'

-- The queue and the fates of the statements are as they were.
pub record Kept (w w' : World Tables) : Type 0 where
  pub queue : w'.store.outbound_queue ≡ w.store.outbound_queue
  pub fate : w'.fails ≡ w.fails

Kept-refl : (w : World Tables) → Kept w w
Kept-refl w = record { queue = refl; fate = refl }

-- A statement that gives a table new rows does so, or fails.
pub written :
    {E : Type 0} (x : E) (g : Tables → Tables) (w : World Tables)
    → let w' = (query x (λ s. some (tt, g s)) w).1 in
      ((w'.store ≡ g w.store) ⊎ ((w.fails w.step ≡ true) × (w'.store ≡ w.store)))
      × (w'.fails ≡ w.fails)
unfolding query
written x g w = elim (Bool-cases (w.fails w.step)) [
  | inl t ↦ rw t (inr (refl, refl), refl)
  | inr f ↦ rw f (inl refl, refl)
]

-- A DID that resolves to a document in which the search for a key panics.
abbrev pub HasPanic : (e : Es256) → Remote e → Type 0
HasPanic e remote =
    (did : List ℕ) × (doc : DidDocument) × (remote.resolve_did did ≡ ok doc)
    × (extract_p256_key remote.keys doc ≡ panics)

-- The attempt panicked in the search for a key, and the queue is as it was.
abbrev pub HasStopped :
    (e : Es256) → Remote e → List QueueRow → List QueueRow → Result WorkerError (Unit {0}) → Type 0
HasStopped e remote rows rows' r = (r ≡ err panicked) × (rows' ≡ rows) × HasPanic e remote

module _ (e : Es256) (remote : Remote e) (now : ℕ) (item : QueueItem) where
  abbrev Fated : World Tables → Result WorkerError (Unit {0}) × World Tables → Type 0
  Fated w (r, w') =
      (HasStopped e remote w.store.outbound_queue w'.store.outbound_queue r
        ⊎ Fate item now w.fails w.store.outbound_queue w'.store.outbound_queue)
      × (w'.fails ≡ w.fails)

  marked :
      (f : QueueRow → QueueRow) (w v : World Tables)
      → Kept w v
      → ((rows : List QueueRow)
          → rows ≡ update f item.id w.store.outbound_queue
          → Fate item now w.fails w.store.outbound_queue rows)
      → Fated w (ignore (update_row f item.id) v)
  marked f w v k done =
      let g : Tables → Tables =
        λ s. record s { outbound_queue = update f item.id s.outbound_queue } in
      let wr = written database g v in
      (
        inr (elim wr.0 [
          | inl put ↦
              done _ (ap (λ (s : Tables). s.outbound_queue) put ∙ ap (update f item.id) k.queue)
          | inr (fails, same) ↦
              lost v.step (ap (λ f. f v.step) (sym k.fate) ∙ fails)
                (ap (λ (s : Tables). s.outbound_queue) same ∙ k.queue)
        ]),
        wr.1 ∙ k.fate,
      )

  store-Kept :
      (ack : DeliveryAck) (b : Bool) (w : World Tables) → Kept w (store_delivery_ack ack b w).1
  unfolding store_delivery_ack
  store-Kept ack b w =
      let g : Tables → Tables = λ s. record s {
        delivery_acks = upsert_ack (record { ack = ack; verified = b }) s.delivery_acks;
      } in
      let r = written database g w in
      elim r.0 [
        | inl put ↦ record { queue = ap (λ (s : Tables). s.outbound_queue) put; fate = r.1 }
        | inr (fails, same) ↦ record {
          queue = ap (λ (s : Tables). s.outbound_queue) same;
          fate = r.1;
        }
      ]

  extracted_ack-Kept :
      (ack : DeliveryAck) (k : Extracted e.VerifyingKey) (w : World Tables)
      → Kept w (extracted_ack e remote now ack k w).1
  extracted_ack-Kept ack (found (some key)) w = elim (Bool-cases (verify e ack key)) [
    | inl t ↦ rw t (store-Kept ack true w)
    | inr f ↦ rw f (Kept-refl w)
  ]
  extracted_ack-Kept ack (found none) w = store-Kept ack false w
  extracted_ack-Kept ack panics w = Kept-refl w

  keyed_ack-Kept :
      (ack : DeliveryAck) (k : Result AuthError DidDocument) (w : World Tables)
      → Kept w (keyed_ack e remote now ack k w).1
  keyed_ack-Kept ack (ok did_doc) w =
      extracted_ack-Kept ack (extract_p256_key remote.keys did_doc) w
  keyed_ack-Kept ack (err x) w = store-Kept ack false w

  -- It ends well, or in a panic for this reason.
  abbrev pub MayPanic : Result WorkerError (Unit {0}) → Type 0
  MayPanic r = (r ≡ ok tt) ⊎ ((r ≡ err panicked) × HasPanic e remote)

  extracted_ack-MayPanic :
      (ack : DeliveryAck) (k : Extracted e.VerifyingKey) (w : World Tables)
      → (k ≡ panics → HasPanic e remote)
      → MayPanic (extracted_ack e remote now ack k w).0
  extracted_ack-MayPanic ack (found (some key)) w why = elim (Bool-cases (verify e ack key)) [
    | inl t ↦ rw t (inl refl)
    | inr f ↦ rw f (inl refl)
  ]
  extracted_ack-MayPanic ack (found none) w why = inl refl
  extracted_ack-MayPanic ack panics w why = inr (refl, why refl)

  keyed_ack-MayPanic :
      (ack : DeliveryAck) (k : Result AuthError DidDocument) (w : World Tables)
      → remote.resolve_did ack.receiver_ds_did ≡ k
      → MayPanic (keyed_ack e remote now ack k w).0
  keyed_ack-MayPanic ack (ok doc) w named =
      extracted_ack-MayPanic ack (extract_p256_key remote.keys doc) w
        (λ p. (ack.receiver_ds_did, doc, named, p))
  keyed_ack-MayPanic ack (err x) w named = inl refl

  on_ack-MayPanic :
      (a : Option DeliveryAck) (w : World Tables) → MayPanic (on_ack e remote now item a w).0
  on_ack-MayPanic none w = inl refl
  on_ack-MayPanic (some ack) w = elim (Bool-cases (fields_valid e remote now item ack)) [
    | inl t ↦ rw t (keyed_ack-MayPanic ack (remote.resolve_did ack.receiver_ds_did) w refl)
    | inr f ↦ rw f (inl refl)
  ]

  on_ack-Kept :
      (a : Option DeliveryAck) (w : World Tables) → Kept w (on_ack e remote now item a w).1
  on_ack-Kept none w = Kept-refl w
  on_ack-Kept (some ack) w = elim (Bool-cases (fields_valid e remote now item ack)) [
    | inl t ↦ rw t (keyed_ack-Kept ack (remote.resolve_did ack.receiver_ds_did) w)
    | inr f ↦ rw f (Kept-refl w)
  ]

  validated-Kept :
      (endpoint : String) (r : Result String (Unit {0})) (w : World Tables)
      → Kept w (validated e remote now endpoint r w).1
  validated-Kept endpoint (ok a) w = Kept-refl w
  validated-Kept endpoint (err x) w = Kept-refl w

  derived-Kept : (o : Option String) (w : World Tables) → Kept w (derived e remote now item o w).1
  derived-Kept none w = Kept-refl w
  derived-Kept (some endpoint) w = validated-Kept endpoint (remote.validate endpoint) w

  cached-Kept : (o : Option String) (w : World Tables) → Kept w (cached e remote now item o w).1
  unfolding did_web_to_endpoint
  cached-Kept none w = derived-Kept (did_web_to_endpoint item.target_ds_did) w
  cached-Kept (some endpoint) w = Kept-refl w

  read-Kept :
      {A : Type 0} (f : Tables → A) (w : World Tables)
      → Kept w (query database (λ s. some (f s, s)) w).1
  unfolding query
  read-Kept f w = elim (Bool-cases (w.fails w.step)) [
    | inl t ↦ rw t (record { queue = refl; fate = refl })
    | inr f ↦ rw f (record { queue = refl; fate = refl })
  ]

  Kept-trans : (u v w : World Tables) → Kept u v → Kept v w → Kept u w
  Kept-trans u v w a b = record { queue = b.queue ∙ a.queue; fate = b.fate ∙ a.fate }

  find_endpoint-Kept : (w : World Tables) → Kept w (find_endpoint e remote now item w).1
  find_endpoint-Kept w =
      Kept-trans w _ _ (read-Kept (λ s. endpoint_column now (s.ds_endpoints item.target_ds_did)) w)
        (cached-Kept _ _)

  resolve-Kept : (w : World Tables) → Kept w (resolve_target_endpoint e remote now item w).1
  unfolding resolve_target_endpoint
  resolve-Kept w = elim (Bool-cases (is_blank item.target_endpoint)) [
    | inl t ↦ rw t (find_endpoint-Kept w)
    | inr f ↦ rw f (Kept-refl w)
  ]

  failing :
      (x : LastError) (w v : World Tables) → Kept w v → Fated w (ignore (mark_failed item.id x) v)
  failing x w v k = marked (set_failed x) w v k (λ rows same. failed x same)

  retry-Fate :
      (x : OutboundError) (b c : Bool) (w v : World Tables)
      → Kept w v
      → is_retryable x ≡ b
      → ltb item.retry_count item.max_retries ≡ c
      → Fated w (
          (if b && c
              then ignore (
                  schedule_retry now item.id
                    (item.retry_count + 1)
                    (outbound x)
                    (backoff_delay item.retry_count))
              else ignore (mark_failed item.id (outbound x)))
            v)
  retry-Fate x true true w v k again below =
      marked (set_retry (item.retry_count + 1) (outbound x) (now + backoff_delay item.retry_count))
        w v k (λ rows same. retried x again (ltb→lt item.retry_count item.max_retries below) same)
  retry-Fate x true false w v k again below = failing (outbound x) w v k
  retry-Fate x false c w v k again below = failing (outbound x) w v k

  accept-Fate :
      (resp : DsResponse) (b : Bool) (w v : World Tables)
      → Kept w v
      → Fated w (
          (if b
              then accepted_with e remote now item resp.ack
              else ignore (mark_failed item.id (rejected (reason_of resp.message))))
            v)
  accept-Fate resp true w v k =
      acked (on_ack e remote now item resp.ack v) (Kept-trans w v _ k (on_ack-Kept resp.ack v))
        (on_ack-MayPanic resp.ack v)
    where
      acked :
          (r : Result WorkerError (Unit {0}) × World Tables)
          → Kept w r.1
          → MayPanic r.0
          → Fated w (continue r.0 (λ _. ignore (mark_delivered item.id)) r.1)
      acked (ok a, u) kept may = marked set_delivered w u kept (λ rows same. delivered same)
      acked (err x, u) kept (inl h) = absurd (cc)
      acked (err x, u) kept (inr h) = (inl (h.0, kept.queue, h.1), kept.fate)
  accept-Fate resp false w v k = failing (rejected (reason_of resp.message)) w v k

  response-Fate :
      (r : Result OutboundError DsResponse) (w v : World Tables)
      → Kept w v
      → Fated w (on_response e remote now item r v)
  response-Fate (ok resp) w v k = accept-Fate resp resp.accepted w v k
  response-Fate (err x) w v k =
      retry-Fate x (is_retryable x) (ltb item.retry_count item.max_retries) w v k refl refl

  body-Fate :
      (endpoint token : String) (b : Option (List ℕ)) (w v : World Tables)
      → Kept w v
      → Fated w (on_body e remote now item endpoint token b v)
  body-Fate endpoint token none w v k = failing invalid_payload w v k
  body-Fate endpoint token (some body) w v k =
      response-Fate (remote.call_procedure endpoint item.method token body) w v k

  token-Fate :
      (endpoint : String) (t : Result String String) (w v : World Tables)
      → Kept w v
      → Fated w (on_token e remote now item endpoint t v)
  token-Fate endpoint (err x) w v k = failing (auth_signing_failed x) w v k
  token-Fate endpoint (ok token) w v k =
      body-Fate endpoint token (remote.from_slice item.payload) w v k

  endpoint-Fate :
      (r : Result OutboundError String) (w v : World Tables)
      → Kept w v
      → Fated w (on_endpoint e remote now item r v)
  endpoint-Fate (err x) w v k = failing (outbound x) w v k
  endpoint-Fate (ok endpoint) w v k =
      token-Fate endpoint (remote.auth_sign item.target_ds_did item.method) w v k

  process_item-Fated : (w : World Tables) → Fated w (process_item e remote now item w)
  unfolding process_item
  process_item-Fated w =
      endpoint-Fate (resolve_target_endpoint e remote now item w).0 w _ (resolve-Kept w)

  pub process_item-Fate :
      (w : World Tables)
      → let r = process_item e remote now item w in
        HasStopped e remote w.store.outbound_queue r.1.store.outbound_queue r.0
        ⊎ Fate item now w.fails w.store.outbound_queue r.1.store.outbound_queue
  process_item-Fate w = (process_item-Fated w).0

  -- Which statements are to fail is not the attempt's to change.
  pub fails-process_item : (w : World Tables) → (process_item e remote now item w).1.fails ≡ w.fails
  fails-process_item w = (process_item-Fated w).1
