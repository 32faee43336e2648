-- ===== src/Federation/Queue/Acks.antt =====
-- The acknowledgments that the worker stores.
use mls_ds.Prelude.{
  ℕ, String, ◌≡◌, refl, sym, subst, Bool, true, false, ◌&&◌, Option, none, some, List, [], ◌∷◌, All,
  Bool-cases, inl, inr, ltb,
}
use mls_ds.Prelude.Results.{Result, ok, err}
use mls_ds.Sql.{World, query, continue}
use mls_ds.Auth.Types.{AuthError, DidDocument}
use mls_ds.Auth.Keys.{Extracted, found, panics, extract_p256_key}
use mls_ds.Federation.Signature.{Es256}
use mls_ds.Federation.Ack.{DeliveryAck, verify}
use mls_ds.Federation.Sequencer.{database}
use mls_ds.Federation.Endpoint.{did_web_to_endpoint, is_blank}
use mls_ds.Federation.Queue.{
  OutboundError, is_retryable, QueueItem, QueueRow, AckRow, Tables, update, update_row,
  mark_delivered,
}
use mls_ds.Federation.Queue.Deliver.{
  DsResponse, Remote, same_key, upsert_ack, store_delivery_ack, validated, derived, cached,
  find_endpoint, resolve_target_endpoint, WorkerError, ignore, extracted_ack, keyed_ack,
  fields_valid, on_ack, on_response, on_body, on_token, on_endpoint, process_item,
}
use mls_ds.Federation.Queue.Fate.{written}

module _ (e : Es256) (remote : Remote e) where
  -- A row is marked as unverified, or its signature verifies under the key of its DS for the claim that
  -- the row makes, at some epoch: an update of a row keeps the epoch of the one before.
  pub data IsBacked (r : AckRow) : Type 0 where
    unverified : r.verified ≡ false → IsBacked r
    verified_at :
        (epoch : ℕ) (key : e.VerifyingKey) (doc : DidDocument)
        → remote.resolve_did r.ack.receiver_ds_did ≡ ok doc
        → extract_p256_key remote.keys doc ≡ found (some key)
        → verify e (record r.ack { epoch = epoch }) key ≡ true
        → IsBacked r

  kept_epoch :
      (new : AckRow) (epoch : ℕ)
      → IsBacked new
      → IsBacked (record new { ack = record new.ack { epoch = epoch } })
  kept_epoch new epoch (unverified h) = unverified h
  kept_epoch new epoch (verified_at at key doc h f k) = verified_at at key doc h f k

  upsert_ack-IsBacked :
      (new : AckRow) (rows : List AckRow)
      → IsBacked new
      → All IsBacked rows
      → All IsBacked (upsert_ack new rows)
  unfolding upsert_ack
  upsert_ack-IsBacked new [] n h = (n, tt)
  upsert_ack-IsBacked new (old ∷ rows) n (h, hs) = elim (Bool-cases (same_key new old)) [
    | inl t ↦ rw t (kept_epoch new old.ack.epoch n, hs)
    | inr f ↦ rw f (h, upsert_ack-IsBacked new rows n hs)
  ]

  abbrev Backed : World Tables → Type 0
  Backed w = All IsBacked w.store.delivery_acks

  write-Backed :
      {E : Type 0} (x : E) (g : Tables → Tables) (w : World Tables)
      → (All IsBacked w.store.delivery_acks → All IsBacked (g w.store).delivery_acks)
      → Backed w
      → Backed (query x (λ s. some (tt, g s)) w).1
  write-Backed x g w keep h = elim (written x g w).0 [
    | inl put ↦ subst (λ (s : Tables). All IsBacked s.delivery_acks) (sym put) (keep h)
    | inr (fails, same) ↦ subst (λ (s : Tables). All IsBacked s.delivery_acks) (sym same) h
  ]

  update_row-Backed :
      (f : QueueRow → QueueRow) (id : String) (w : World Tables)
      → Backed w
      → Backed (update_row f id w).1
  update_row-Backed f id w h =
      write-Backed database (λ s. record s { outbound_queue = update f id s.outbound_queue }) w
        (λ k. k) h

  store-Backed :
      (ack : DeliveryAck) (b : Bool) (w : World Tables)
      → IsBacked (record { ack = ack; verified = b })
      → Backed w
      → Backed (store_delivery_ack ack b w).1
  unfolding store_delivery_ack
  store-Backed ack b w n h =
      write-Backed database
        (λ s. record s {
          delivery_acks = upsert_ack (record { ack = ack; verified = b }) s.delivery_acks;
        })
        w (λ k. upsert_ack-IsBacked _ _ n k) h

  module _ (now : ℕ) (item : QueueItem) where
    extracted-Backed :
        (ack : DeliveryAck) (doc : DidDocument) (k : Extracted e.VerifyingKey) (w : World Tables)
        → remote.resolve_did ack.receiver_ds_did ≡ ok doc
        → extract_p256_key remote.keys doc ≡ k
        → Backed w
        → Backed (extracted_ack e remote now ack k w).1
    extracted-Backed ack doc (found (some key)) w named key_of h =
        elim (Bool-cases (verify e ack key)) [
          | inl t ↦ rw t (store-Backed ack true w (verified_at ack.epoch key doc named key_of t) h)
          | inr f ↦ rw f h
        ]
    extracted-Backed ack doc (found none) w named key_of h =
        store-Backed ack false w (unverified refl) h
    extracted-Backed ack doc panics w named key_of h = h

    keyed-Backed :
        (ack : DeliveryAck) (k : Result AuthError DidDocument) (w : World Tables)
        → remote.resolve_did ack.receiver_ds_did ≡ k
        → Backed w
        → Backed (keyed_ack e remote now ack k w).1
    keyed-Backed ack (ok doc) w named h =
        extracted-Backed ack doc (extract_p256_key remote.keys doc) w named refl h
    keyed-Backed ack (err x) w named h = store-Backed ack false w (unverified refl) h

    on_ack-Backed :
        (a : Option DeliveryAck) (w : World Tables)
        → Backed w
        → Backed (on_ack e remote now item a w).1
    on_ack-Backed none w h = h
    on_ack-Backed (some ack) w h = elim (Bool-cases (fields_valid e remote now item ack)) [
      | inl t ↦ rw t (keyed-Backed ack (remote.resolve_did ack.receiver_ds_did) w refl h)
      | inr f ↦ rw f h
    ]

    delivered_after :
        (x : Result WorkerError (Unit {0}) × World Tables)
        → Backed x.1
        → Backed (continue x.0 (λ _. ignore (mark_delivered item.id)) x.1).1
    delivered_after (ok a, u) h = update_row-Backed _ _ u h
    delivered_after (err y, u) h = h

    response-Backed :
        (r : Result OutboundError DsResponse) (w : World Tables)
        → Backed w
        → Backed (on_response e remote now item r w).1
    response-Backed (ok resp) w h = elim (Bool-cases resp.accepted) [
      | inl t ↦
          rw t (delivered_after (on_ack e remote now item resp.ack w) (on_ack-Backed resp.ack w h))
      | inr f ↦ rw f (update_row-Backed _ _ _ h)
    ]
    response-Backed (err x) w h =
        elim (Bool-cases (is_retryable x && ltb item.retry_count item.max_retries)) [
          | inl t ↦ rw t (update_row-Backed _ _ _ h)
          | inr f ↦ rw f (update_row-Backed _ _ _ h)
        ]

    body-Backed :
        (endpoint token : String) (b : Option (List ℕ)) (w : World Tables)
        → Backed w
        → Backed (on_body e remote now item endpoint token b w).1
    body-Backed endpoint token none w h = update_row-Backed _ _ _ h
    body-Backed endpoint token (some body) w h = response-Backed _ w h

    token-Backed :
        (endpoint : String) (t : Result String String) (w : World Tables)
        → Backed w
        → Backed (on_token e remote now item endpoint t w).1
    token-Backed endpoint (err x) w h = update_row-Backed _ _ _ h
    token-Backed endpoint (ok token) w h = body-Backed endpoint token _ w h

    endpoint-Backed :
        (r : Result OutboundError String) (w : World Tables)
        → Backed w
        → Backed (on_endpoint e remote now item r w).1
    endpoint-Backed (err x) w h = update_row-Backed _ _ _ h
    endpoint-Backed (ok endpoint) w h = token-Backed endpoint _ w h

    validated-store :
        (endpoint : String) (r : Result String (Unit {0})) (w : World Tables)
        → (validated e remote now endpoint r w).1 ≡ w
    validated-store endpoint (ok a) w = refl
    validated-store endpoint (err x) w = refl

    cached-store : (o : Option String) (w : World Tables) → (cached e remote now item o w).1 ≡ w
    unfolding did_web_to_endpoint
    cached-store (some endpoint) w = refl
    cached-store none w = derived-store (did_web_to_endpoint item.target_ds_did)
      where
        derived-store : (o : Option String) → (derived e remote now item o w).1 ≡ w
        derived-store none = refl
        derived-store (some endpoint) = validated-store endpoint (remote.validate endpoint) w

    find_endpoint-Backed :
        (w : World Tables) → Backed w → Backed (find_endpoint e remote now item w).1
    unfolding query
    find_endpoint-Backed w h =
        subst Backed (sym (cached-store _ _))
          (elim (Bool-cases (w.fails w.step)) [ inl t ↦ rw t h | inr f ↦ rw f h ])

    resolve-Backed :
        (w : World Tables) → Backed w → Backed (resolve_target_endpoint e remote now item w).1
    unfolding resolve_target_endpoint
    resolve-Backed w h = elim (Bool-cases (is_blank item.target_endpoint)) [
      | inl t ↦ rw t (find_endpoint-Backed w h)
      | inr f ↦ rw f h
    ]

    -- Where every stored acknowledgment that is marked as verified carries a signature that verifies, under
    -- the first P-256 key in the document of the DS that the row names, for what the row says, the epoch
    -- aside: there they all do after an attempt.
    pub process_item-IsBacked :
        (w : World Tables)
        → All IsBacked w.store.delivery_acks
        → All IsBacked (process_item e remote now item w).1.store.delivery_acks
    unfolding process_item
    process_item-IsBacked w h =
        endpoint-Backed (resolve_target_endpoint e remote now item w).0 _ (resolve-Backed w h)
