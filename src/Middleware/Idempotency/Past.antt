-- ===== src/Middleware/Idempotency/Past.antt =====
-- Where the rows of the cache come from.
use mls_ds.Prelude.{
  Any, ℕ, String, ◌≡◌, refl, ◌⊎◌, inl, inr, true, Option, none, some, List, [], ◌∷◌, All, All-map,
  where_-All, find, Bool-cases,
}
use mls_ds.Prelude.Int.{ℤ, pos, ◌+ℤ◌}
use mls_ds.Prelude.Results.{Result, ok, err}
use mls_ds.Sql.{World, query, next}
use mls_ds.Federation.Sequencer.{SqlError, database}
use mls_ds.Middleware.Idempotency.{
  Codec, StatusCode, Request, Response, CacheRow, has_key, upsert_row, extract_caller_did,
  extract_idempotency_key, is_write, is_success, Tables, is_hit, on_check, on_key, on_body,
  on_caller, on_bytes, store_json, process, check_cache, store_cache, cleanup_expired_entries,
  idempotency_middleware,
}
use mls_ds.Middleware.Idempotency.Replay.{IsKeyed, IsKept}

-- A request with the times of its statements, or a run of the cleanup task.
pub data CacheEvent : Type 0 where
  requested : ℕ → ℕ → Request → CacheEvent
  cleaned : ℕ → CacheEvent

module _ (c : Codec) where
  upsert_row-All :
      (P : CacheRow c → Type 0) (new : CacheRow c) (rs : List (CacheRow c))
      → P new
      → All P rs
      → All P (upsert_row c new rs)
  unfolding upsert_row
  upsert_row-All P new [] n h = (n, tt)
  upsert_row-All P new (r ∷ rs) n (h, hs) =
      elim (Bool-cases (has_key c new.caller_did new.key new.endpoint r)) [
        | inl t ↦ rw t (n, hs)
        | inr f ↦ rw f (h, upsert_row-All P new rs n hs)
      ]

  -- The row repeats the answer to this request.
  pub record IsRepeat (request : Request) (result : Result StatusCode Response) (row : CacheRow c)
      : Type 0 where
    pub response : Response
    pub answered : result ≡ ok response
    pub keyed : IsKeyed c request row.caller_did row.key
    pub same_path : row.endpoint ≡ request.path
    pub same_status : row.status_code ≡ response.status
    pub kept : IsKept c response row.response_body

  module _ (Rest : Type 0) (next_of : Request → Rest → Response × Rest) (ttl : ℤ) where
    -- What a request does to the cache: nothing, or it puts its own answer there.
    abbrev Step :
        Request → List (CacheRow c) → Result StatusCode Response × World (Tables c Rest) → Type 0
    unfolding upsert_row
    Step request before x =
        (x.1.store.idempotency_cache ≡ before)
        ⊎ ((row : CacheRow c) × (IsRepeat request x.0 row
              × (x.1.store.idempotency_cache ≡ upsert_row c row before)))

    module _ (now done : ℕ) (request : Request) (caller_did key : String)
        (k : IsKeyed c request caller_did key) where
      json_Step :
          (response : Response) (o : Option c.Value) (w : World (Tables c Rest))
          → ((v : c.Value) → o ≡ some v → IsKept c response v)
          → Step request w.store.idempotency_cache
              (store_json c Rest next_of ttl now done request caller_did key response o w)
      unfolding store_cache query Step
      json_Step response none w kept = inl refl
      json_Step response (some v) w kept = elim (Bool-cases (w.fails w.step)) [
        | inl t ↦ rw t (inl refl)
        | inr f ↦ rw f (
            inr (
              record {
                caller_did = caller_did;
                key = key;
                endpoint = request.path;
                response_body = v;
                status_code = response.status;
                expires_at = pos done +ℤ ttl;
              },
              (
                record {
                  response = response;
                  answered = refl;
                  keyed = k;
                  same_path = refl;
                  same_status = refl;
                  kept = kept v refl;
                },
                refl,
              ),
            ))
      ]

      bytes_Step :
          (response : Response) (o : Option (List ℕ)) (w : World (Tables c Rest))
          → response.body ≡ o
          → Step request w.store.idempotency_cache
              (on_bytes c Rest next_of ttl now done request caller_did key response o w)
      unfolding Step
      bytes_Step response none w e = inl refl
      bytes_Step response (some bytes) w e = elim (Bool-cases (is_success response.status)) [
        | inl t ↦ rw t (
            json_Step response (c.from_slice bytes) w
              (λ v j. record { bytes = bytes; success = t; body = e; json = j }))
        | inr f ↦ rw f (inl refl)
      ]

      process-Step :
          (w : World (Tables c Rest))
          → Step request w.store.idempotency_cache
              (process c Rest next_of ttl now done request caller_did key w)
      process-Step w =
          let r = next_of request w.store.rest in
          bytes_Step r.0 r.0.body (record w { store = record w.store { rest = r.1 } }) refl

      check_Step :
          (o : Result SqlError (Option (CacheRow c))) (w : World (Tables c Rest))
          → Step request w.store.idempotency_cache
              (on_check c Rest next_of ttl now done request caller_did key o w)
      unfolding Step
      check_Step (ok (some row)) w = inl refl
      check_Step (ok none) w = process-Step w
      check_Step (err e) w = process-Step w

      keyed_Step :
          (w : World (Tables c Rest))
          → Step request w.store.idempotency_cache
              (on_key c Rest next_of ttl now done request caller_did (some key) w)
      unfolding check_cache query
      keyed_Step w = elim (Bool-cases (w.fails w.step)) [
        | inl t ↦ rw t (check_Step (err database) (next w w.store))
        | inr f ↦ rw f (
            check_Step
              (ok (find (is_hit c Rest now caller_did key request.path) w.store.idempotency_cache))
              (next w w.store))
      ]

    module _ (now done : ℕ) (request : Request) where
      key_Step :
          (did : String) (bytes : List ℕ) (o : Option String) (w : World (Tables c Rest))
          → is_write request.method ≡ true
          → extract_caller_did c request.authorization ≡ some did
          → request.body ≡ some bytes
          → extract_idempotency_key c bytes ≡ o
          → Step request w.store.idempotency_cache
              (on_key c Rest next_of ttl now done request did o w)
      unfolding Step
      key_Step did bytes none w a b d e = inl refl
      key_Step did bytes (some key) w a b d e =
          keyed_Step now done request did key
            (record { bytes = bytes; write = a; caller = b; read = d; keyed = e }) w

      body_Step :
          (did : String) (o : Option (List ℕ)) (w : World (Tables c Rest))
          → is_write request.method ≡ true
          → extract_caller_did c request.authorization ≡ some did
          → request.body ≡ o
          → Step request w.store.idempotency_cache
              (on_body c Rest next_of ttl now done request did o w)
      unfolding Step
      body_Step did none w a b d = inl refl
      body_Step did (some bytes) w a b d =
          key_Step did bytes (extract_idempotency_key c bytes) w a b d refl

      caller_Step :
          (o : Option String) (w : World (Tables c Rest))
          → is_write request.method ≡ true
          → extract_caller_did c request.authorization ≡ o
          → Step request w.store.idempotency_cache
              (on_caller c Rest next_of ttl now done request o w)
      unfolding Step
      caller_Step none w a b = inl refl
      caller_Step (some did) w a b = body_Step did request.body w a b refl

      middleware_Step :
          (w : World (Tables c Rest))
          → Step request w.store.idempotency_cache
              (idempotency_middleware c Rest next_of ttl now done request w)
      unfolding idempotency_middleware Step
      middleware_Step w = elim (Bool-cases (is_write request.method)) [
        | inl t ↦ rw t (caller_Step (extract_caller_did c request.authorization) w t refl)
        | inr f ↦ rw f (inl refl)
      ]

    -- The requests answered so far, the latest first.
    abbrev pub History : Type 0
    History = List (Request × Result StatusCode Response)

    unfoldable pub apply :
        History × World (Tables c Rest) → CacheEvent → History × World (Tables c Rest)
    apply (past, w) (requested now done request) =
        let x = idempotency_middleware c Rest next_of ttl now done request w in
        ((request, x.0) ∷ past, x.1)
    apply (past, w) (cleaned now) = (past, (cleanup_expired_entries c Rest now w).1)

    unfoldable pub apply_all :
        History × World (Tables c Rest) → List CacheEvent → History × World (Tables c Rest)
    apply_all h [] = h
    apply_all h (e ∷ es) = apply_all (apply h e) es

    abbrev pub IsPast : History → CacheRow c → Type 0
    IsPast past row = Any (λ p. IsRepeat p.0 p.1 row) past

    abbrev pub HasPast : History × World (Tables c Rest) → Type 0
    HasPast x = All (IsPast x.0) x.1.store.idempotency_cache

    requested-HasPast :
        (past : History) (now done : ℕ) (request : Request) (w : World (Tables c Rest))
        → All (IsPast past) w.store.idempotency_cache
        → let x = idempotency_middleware c Rest next_of ttl now done request w in
          Step request w.store.idempotency_cache x
          → All (IsPast ((request, x.0) ∷ past)) x.1.store.idempotency_cache
    unfolding Step
    requested-HasPast past now done request w h (inl same) =
        rw same (All-map _ _ w.store.idempotency_cache (λ r k. inr k) h)
    requested-HasPast past now done request w h (inr (row, (repeat, put))) = rw put (
        upsert_row-All _ row w.store.idempotency_cache (inl repeat)
          (All-map _ _ w.store.idempotency_cache (λ r k. inr k) h))

    cleaned-HasPast :
        (past : History) (now : ℕ) (w : World (Tables c Rest))
        → All (IsPast past) w.store.idempotency_cache
        → All (IsPast past) (cleanup_expired_entries c Rest now w).1.store.idempotency_cache
    unfolding cleanup_expired_entries query
    cleaned-HasPast past now w h = elim (Bool-cases (w.fails w.step)) [
      | inl t ↦ rw t h
      | inr f ↦ rw f (where_-All (IsPast past) _ w.store.idempotency_cache h)
    ]

    apply-HasPast :
        (x : History × World (Tables c Rest)) (e : CacheEvent) → HasPast x → HasPast (apply x e)
    unfolding apply
    apply-HasPast (past, w) (requested now done request) h =
        requested-HasPast past now done request w h (middleware_Step now done request w)
    apply-HasPast (past, w) (cleaned now) h = cleaned-HasPast past now w h

    -- Where every row of the cache repeats an earlier answer, so it is after any requests and cleanups,
    -- whatever statements fail: each row has the caller, the key and the path of a request that was
    -- answered, and the 2xx status and the JSON of that answer.
    pub apply_all-HasPast :
        (es : List CacheEvent) (x : History × World (Tables c Rest))
        → HasPast x
        → HasPast (apply_all x es)
    unfolding apply_all
    apply_all-HasPast [] x h = h
    apply_all-HasPast (e ∷ es) x h = apply_all-HasPast es (apply x e) (apply-HasPast x e h)
