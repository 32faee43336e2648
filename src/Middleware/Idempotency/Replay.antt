-- ===== src/Middleware/Idempotency/Replay.antt =====
-- A request that is sent again.
use mls_ds.Prelude.{
  ℕ, suc, String, ◌≡◌, refl, ap, ◌∙◌, Bool, true, ◌&&◌, none, some, List, [], ◌∷◌, find, eq_refl,
  arith, Bool-cases, inl, inr, ◌%◌,
}
use mls_ds.Prelude.Int.{ℤ, pos, ◌+ℤ◌, is_alive}
use mls_ds.Prelude.Results.{Result, ok}
use mls_ds.Sql.{World, NoFails, next, query-NoFails}
use mls_ds.Wire.{as_bytes}
use mls_ds.Federation.Sequencer.{database}
use mls_ds.Middleware.Idempotency.{
  Codec, Request, Response, CacheRow, has_key, upsert_row, extract_caller_did,
  extract_idempotency_key, is_write, is_success, from_u16, Tables, is_hit, on_key, check_cache,
  store_cache, replayed, idempotency_middleware,
}

module _ (c : Codec) where
  -- A request whose answer is kept under a caller and a key.
  pub record IsKeyed (request : Request) (caller_did key : String) : Type 0 where
    pub bytes : List ℕ
    pub write : is_write request.method ≡ true
    pub caller : extract_caller_did c request.authorization ≡ some caller_did
    pub read : request.body ≡ some bytes
    pub keyed : extract_idempotency_key c bytes ≡ some key

  -- An answer that is kept, with its value.
  pub record IsKept (response : Response) (v : c.Value) : Type 0 where
    pub bytes : List ℕ
    pub success : is_success response.status ≡ true
    pub body : response.body ≡ some bytes
    pub json : c.from_slice bytes ≡ some v

  find-upsert_row :
      (new : CacheRow c) (p : CacheRow c → Bool) (rs : List (CacheRow c))
      → p new ≡ true
      → find (λ r. has_key c new.caller_did new.key new.endpoint r && p r) (upsert_row c new rs)
        ≡ some new
  unfolding find upsert_row
  find-upsert_row new p [] h =
      rw (eq_refl new.caller_did, eq_refl new.key, eq_refl new.endpoint, h) refl
  find-upsert_row new p (r ∷ rs) h =
      elim (Bool-cases (has_key c new.caller_did new.key new.endpoint r)) [
        | inl t ↦ rw t (rw (eq_refl new.caller_did, eq_refl new.key, eq_refl new.endpoint, h) refl)
        | inr f ↦ rw f (rw f (find-upsert_row new p rs h))
      ]

  success-from_u16 : (status : ℕ) → is_success status ≡ true → from_u16 (status % 65536) ≡ status
  success-from_u16 status h = ground arith

  module _ (Rest : Type 0) (next_of : Request → Rest → Response × Rest) (ttl : ℤ) (now done : ℕ)
      (request : Request) (caller_did key : String) (k : IsKeyed request caller_did key)
      (w : World (Tables c Rest)) (fine : NoFails w) where
    abbrev row_of : Response → c.Value → CacheRow c
    row_of r v = record {
      caller_did = caller_did;
      key = key;
      endpoint = request.path;
      response_body = v;
      status_code = r.status;
      expires_at = pos done +ℤ ttl;
    }

    keyed_answer :
        idempotency_middleware c Rest next_of ttl now done request w
        ≡ on_key c Rest next_of ttl now done request caller_did (some key) w
    unfolding idempotency_middleware
    keyed_answer = rw (k.write, k.caller, k.read, k.keyed) refl

    hit_answer :
        (r : CacheRow c)
        → find (is_hit c Rest now caller_did key request.path) w.store.idempotency_cache ≡ some r
        → idempotency_middleware c Rest next_of ttl now done request w
          ≡ (ok (replayed c Rest r), next w w.store)
    unfolding idempotency_middleware check_cache
    hit_answer r hit =
        keyed_answer
        ∙ rw
            (
              query-NoFails database
                  (λ s.
                    (find (is_hit c Rest now caller_did key request.path) s.idempotency_cache, s))
                  w fine,
              hit,
            )
            refl

    abbrev kept_world : c.Value → World (Tables c Rest)
    unfolding upsert_row
    kept_world v =
        let r = next_of request w.store.rest in
        record w {
          step = suc (suc w.step);
          store = record {
            idempotency_cache = upsert_row c (row_of r.0 v) w.store.idempotency_cache;
            rest = r.1;
          };
        }

    kept_answer :
        (v : c.Value)
        → find (is_hit c Rest now caller_did key request.path) w.store.idempotency_cache ≡ none
        → IsKept (next_of request w.store.rest).0 v
        → idempotency_middleware c Rest next_of ttl now done request w
          ≡ (ok (next_of request w.store.rest).0, kept_world v)
    unfolding idempotency_middleware check_cache store_cache kept_world
    kept_answer v miss kept =
        let r = next_of request w.store.rest in
        let mid : World (Tables c Rest) = record w {
          step = suc w.step;
          store = record w.store { rest = r.1 };
        } in
        keyed_answer
        ∙ rw
            (
              query-NoFails database
                  (λ s.
                    (find (is_hit c Rest now caller_did key request.path) s.idempotency_cache, s))
                  w fine,
              miss,
              kept.body,
              kept.success,
              kept.json,
              query-NoFails database
                  (λ s. (
                    tt,
                    record s {
                      idempotency_cache = upsert_row c (row_of r.0 v) s.idempotency_cache;
                    },
                  ))
                  mid fine,
            )
            refl

  -- The answer to a request that is sent again.
  pub record IsReplay (Rest : Type 0) (response : Response) (v : c.Value)
      (w : World (Tables c Rest)) (x : Result ℕ Response × World (Tables c Rest)) : Type 0 where
    pub answer : Response
    pub bytes : List ℕ
    pub answered : x.0 ≡ ok answer
    pub same_status : answer.status ≡ response.status
    pub body : answer.body ≡ some bytes
    pub same_json : c.from_slice bytes ≡ some v
    pub untouched : x.1.store ≡ w.store

  replayed-IsReplay :
      (Rest : Type 0) (response : Response) (v : c.Value) (r : CacheRow c)
      (w : World (Tables c Rest)) (x : Result ℕ Response × World (Tables c Rest))
      → r.response_body ≡ v
      → r.status_code ≡ response.status
      → is_success response.status ≡ true
      → x ≡ (ok (replayed c Rest r), next w w.store)
      → IsReplay Rest response v w x
  replayed-IsReplay Rest response v r w x body status success e =
      let (text, to, from) = c.from_slice-to_string v in
      record {
        answer = replayed c Rest r;
        bytes = as_bytes text;
        answered = ap (λ y. y.0) e;
        same_status = rw status (success-from_u16 response.status success);
        body = rw (body, to) refl;
        same_json = from;
        untouched = ap (λ y. y.1.store) e;
      }

  -- A write that a caller sends under a key, which no live entry answers and which the handler answers
  -- with a 2xx status and JSON, is answered from the cache when the caller sends any write to the same
  -- path under the same key before the entry's end: with that status and that JSON, and with every
  -- table left as it was, so no handler runs. No statement fails.
  pub idempotency_middleware-IsReplay :
      (Rest : Type 0) (next_of next_of' : Request → Rest → Response × Rest) (ttl : ℤ)
      (now done now' done' : ℕ) (request request' : Request) (caller_did key : String) (v : c.Value)
      (w : World (Tables c Rest))
      → NoFails w
      → IsKeyed request caller_did key
      → IsKeyed request' caller_did key
      → request'.path ≡ request.path
      → find (is_hit c Rest now caller_did key request.path) w.store.idempotency_cache ≡ none
      → IsKept (next_of request w.store.rest).0 v
      → is_alive now' (pos done +ℤ ttl) ≡ true
      → let first = idempotency_middleware c Rest next_of ttl now done request w in
        (first.0 ≡ ok (next_of request w.store.rest).0)
        × IsReplay Rest
            (next_of request w.store.rest).0
            v
            first.1
            (idempotency_middleware c Rest next_of' ttl now' done' request' first.1)
  unfolding kept_world
  idempotency_middleware-IsReplay Rest next_of next_of' ttl now done now' done' request request'
        caller_did key v w fine k k' path miss kept alive =
      let first = idempotency_middleware c Rest next_of ttl now done request w in
      let e = kept_answer Rest next_of ttl now done request caller_did key k w fine v miss kept in
      let r = (next_of request w.store.rest).0 in
      let row = row_of Rest next_of ttl now done request caller_did key k w fine r v in
      let fine' : NoFails first.1 = rw e fine in
      let hit : find (is_hit c Rest now' caller_did key request'.path)
            first.1.store.idempotency_cache
          ≡ some row =
        rw (e, path)
          (find-upsert_row row (λ x. is_alive now' x.expires_at) w.store.idempotency_cache alive) in
      (
        ap (λ x. x.0) e,
        replayed-IsReplay Rest r v row first.1 _ refl refl kept.success (
            hit_answer Rest next_of' ttl now' done' request' caller_did key k' first.1 fine' row
              hit),
      )
