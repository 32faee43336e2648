-- ===== src/Middleware/Idempotency.antt =====
-- middleware/idempotency.rs: `idempotency_middleware` and its table idempotency_cache. A handler is a
-- function of the request and of the other tables. A time is a number of seconds; `now` is the time of
-- the look into the cache, `done` that of the INSERT.
pub mod Replay
pub mod Past
mod Tests
use Prim.Native.String as Text
use mls_ds.Prelude.{
  ℕ, ◌%◌, String, ◌≡◌, Bool, not, ◌&&◌, ◌||◌, Option, none, some, List, [], ◌∷◌, where_, find,
  length, ◌-◌, ltb, leb, str_eq, if◌then◌else◌,
}
use mls_ds.Prelude.Int.{ℤ, pos, ◌+ℤ◌, leb_ℤ, is_alive}
use mls_ds.Prelude.Strings.{split_at}
use mls_ds.Prelude.Results.{Result, ok, err}
use mls_ds.Sql.{World, Exec, query, pure, throw, ◌>>=◌, ◌>>◌}
use mls_ds.Wire.{as_bytes}
use mls_ds.Federation.Sequencer.{SqlError, database}
use mls_ds.Federation.Endpoint.{strip_prefix}
use mathlib.Core.Option

-- `serde_json`, and the decoder of the package `base64`.
pub record Codec : Type 1 where
  pub Value : Type 0
  pub from_slice : List ℕ → Option Value
  pub to_string : Value → Option String
  pub get : Value → String → Option Value
  pub as_str : Value → Option String
  pub decode : String → Option (List ℕ)
  pub from_slice-to_string :
      (v : Value)
      → (text : String) × (to_string v ≡ some text) × (from_slice (as_bytes text) ≡ some v)

-- An HTTP status, as the error that a middleware returns.
abbrev pub StatusCode : Type 0
StatusCode = ℕ

pub record Request : Type 0 where
  pub method : String
  pub path : String
  pub authorization : Option String
  -- `none` where the body cannot be read
  pub body : Option (List ℕ)

pub record Response : Type 0 where
  pub status : StatusCode
  pub headers : List (String × String)
  pub body : Option (List ℕ)

abbrev pub and_then : {A B : Type 0} → Option A → (A → Option B) → Option B
and_then none f = none
and_then (some a) f = f a

-- `URL_SAFE_NO_PAD.decode(parts[1])` of three parts
abbrev pub payload_of : List String → Option String
payload_of (header ∷ payload ∷ signature ∷ []) = some payload
payload_of _ = none

unfoldable pub is_write : String → Bool
is_write method = str_eq method "POST" || str_eq method "PUT" || str_eq method "PATCH"

abbrev pub is_success : StatusCode → Bool
is_success status = leb 200 status && ltb status 300

-- `StatusCode::from_u16`, with the status of an error for what is none.
abbrev pub from_u16 : ℕ → StatusCode
from_u16 n = if leb 100 n && ltb n 1000 then n else 500

abbrev pub or_braces : Option String → String
or_braces none = "{}"
or_braces (some s) = s

module _ (c : Codec) where
  pub record CacheRow : Type 0 where
    pub caller_did : String
    pub key : String
    pub endpoint : String
    pub response_body : c.Value
    pub status_code : ℕ
    pub expires_at : ℤ

  abbrev pub has_key : String → String → String → CacheRow → Bool
  has_key caller_did key endpoint r =
      str_eq r.caller_did caller_did && str_eq r.key key && str_eq r.endpoint endpoint

  -- INSERT … ON CONFLICT (caller_did, endpoint, key) DO UPDATE
  unfoldable pub upsert_row : CacheRow → List CacheRow → List CacheRow
  upsert_row new [] = new ∷ []
  upsert_row new (r ∷ rs) =
      let rest = upsert_row new rs in
      if has_key new.caller_did new.key new.endpoint r then new ∷ rs else r ∷ rest

  abbrev pub text_at : c.Value → String → Option String
  text_at v name = and_then (c.get v name) c.as_str

  unfoldable pub extract_caller_did : Option String → Option String
  extract_caller_did authorization =
      let token = and_then authorization (strip_prefix "Bearer ") in
      let payload = and_then token (λ t. payload_of (split_at b'.' t)) in
      let claims = and_then (and_then payload c.decode) c.from_slice in
      and_then claims (λ v. text_at v "iss")

  unfoldable pub extract_idempotency_key : List ℕ → Option String
  extract_idempotency_key body =
      and_then (c.from_slice body) (λ json. text_at json "idempotencyKey")

  module _ (Rest : Type 0) where
    pub record Tables : Type 0 where
      pub idempotency_cache : List CacheRow
      pub rest : Rest

    abbrev pub Job : Type 0 → Type 0
    Job A = Exec Tables StatusCode A

    abbrev pub is_hit : ℕ → String → String → String → CacheRow → Bool
    is_hit now caller_did key endpoint r =
        has_key caller_did key endpoint r && is_alive now r.expires_at

    unfoldable pub check_cache :
        ℕ → String → String → String → Exec Tables SqlError (Option CacheRow)
    check_cache now caller_did key endpoint =
        query database
          (λ s. some (find (is_hit now caller_did key endpoint) s.idempotency_cache, s))

    unfoldable pub store_cache :
        ℤ → ℕ → String → String → String → StatusCode → c.Value → Exec Tables SqlError (Unit {0})
    store_cache ttl done caller_did key endpoint status response_body =
        let new : CacheRow = record {
          caller_did = caller_did;
          key = key;
          endpoint = endpoint;
          response_body = response_body;
          status_code = status;
          expires_at = pos done +ℤ ttl;
        } in
        query database
          (λ s. some (tt, record s { idempotency_cache = upsert_row new s.idempotency_cache }))

    unfoldable pub cleanup_expired_entries : ℕ → Exec Tables SqlError ℕ
    cleanup_expired_entries now = query database (λ s.
        let kept = where_ (λ r. leb_ℤ (pos now) r.expires_at) s.idempotency_cache in
        some (length s.idempotency_cache - length kept, record s { idempotency_cache = kept }))

    -- A statement whose error is logged only.
    abbrev pub logged : {A : Type 0} → Exec Tables SqlError A → Job (Result SqlError A)
    logged m w = (ok (m w).0, (m w).1)

    -- `next.run(request)`
    abbrev pub run : (Request → Rest → Response × Rest) → Request → Job Response
    run next request w =
        let r = next request w.store.rest in
        (ok r.0, record w { store = record w.store { rest = r.1 } })

    abbrev pub replayed : CacheRow → Response
    replayed r = record {
      status = from_u16 (r.status_code % 65536);
      headers = ("content-type", "application/json") ∷ [];
      body = some (as_bytes (or_braces (c.to_string r.response_body)));
    }

    module _ (next : Request → Rest → Response × Rest) (ttl : ℤ) (now done : ℕ)
        (request : Request) where
      abbrev pub store_json : String → String → Response → Option c.Value → Job Response
      store_json caller_did key response none = pure response
      store_json caller_did key response (some json_body) = do
        logged (store_cache ttl done caller_did key request.path response.status json_body)
        pure response

      abbrev pub on_bytes : String → String → Response → Option (List ℕ) → Job Response
      on_bytes caller_did key response none = throw 500
      on_bytes caller_did key response (some bytes) =
          if is_success response.status
          then store_json caller_did key response (c.from_slice bytes)
          else pure response

      abbrev pub process : String → String → Job Response
      process caller_did key = do
        response ← run next request
        on_bytes caller_did key response response.body

      abbrev pub on_check : String → String → Result SqlError (Option CacheRow) → Job Response
      on_check caller_did key (ok (some cached)) = pure (replayed cached)
      on_check caller_did key (ok none) = process caller_did key
      on_check caller_did key (err e) = process caller_did key

      abbrev pub on_key : String → Option String → Job Response
      on_key caller_did none = run next request
      on_key caller_did (some key) = do
        cached ← logged (check_cache now caller_did key request.path)
        on_check caller_did key cached

      abbrev pub on_body : String → Option (List ℕ) → Job Response
      on_body caller_did none = throw 400
      on_body caller_did (some bytes) = on_key caller_did (extract_idempotency_key bytes)

      abbrev pub on_caller : Option String → Job Response
      on_caller none = run next request
      on_caller (some caller_did) = on_body caller_did request.body

      unfoldable pub idempotency_middleware : Job Response
      idempotency_middleware =
          if is_write request.method
          then on_caller (extract_caller_did request.authorization)
          else run next request
