-- ===== src/Middleware/Idempotency/Tests.antt =====
-- A message that is sent twice under one key.
use mls_ds.Prelude.{
  ℕ, suc, true, String, ◌≡◌, refl, false, Option, none, some, find, List, [], ◌∷◌, str_eq, bytes_eq,
  if◌then◌else◌,
}
use mls_ds.Prelude.Int.{pos, ◌+ℤ◌, is_alive}
use mls_ds.Prelude.Strings.{split_at}
use mls_ds.Prelude.Results.{ok}
use mls_ds.Sql.{World}
use mls_ds.Wire.{as_bytes}
use mls_ds.Federation.Endpoint.{strip_prefix}
use mls_ds.Middleware.Idempotency.{
  Codec, Request, Response, Tables, is_write, extract_caller_did, extract_idempotency_key, is_hit,
  idempotency_middleware,
}
use mls_ds.Middleware.Idempotency.Replay.{
  IsKeyed, IsKept, IsReplay, idempotency_middleware-IsReplay,
}
use mls_ds.Middleware.Idempotency.Past.{
  CacheEvent, requested, cleaned, HasPast, apply_all, apply_all-HasPast,
}

-- A token's claims, a request, an answer and two texts.
data Document : Type 0 where
  claims message sent user name : Document

abbrev written : Document → String
written claims = "c"
written message = "m"
written sent = "s"
written user = "u"
written name = "n"

abbrev document : List ℕ → Option Document
document bytes =
    if bytes_eq bytes (b'c' ∷ [])
    then some claims
    else if bytes_eq bytes (b'm' ∷ [])
    then some message
    else if bytes_eq bytes (b's' ∷ [])
    then some sent
    else if bytes_eq bytes (b'u' ∷ [])
    then some user
    else if bytes_eq bytes (b'n' ∷ [])
    then some name
    else none

abbrev child : Document → String → Option Document
child claims field = if str_eq field "iss" then some user else none
child message field = if str_eq field "idempotencyKey" then some name else none
child _ field = none

abbrev text : Document → Option String
text user = some "did:web:u"
text name = some "key 1"
text _ = none

reads : (v : Document) → document (as_bytes (written v)) ≡ some v
unfolding bytes_eq as_bytes
reads claims = refl
reads message = refl
reads sent = refl
reads user = refl
reads name = refl

abbrev codec : Codec
codec = record {
  Value = Document;
  from_slice = document;
  to_string = λ v. some (written v);
  get = child;
  as_str = text;
  decode = λ s. some (as_bytes s);
  from_slice-to_string = λ v. (written v, refl, reads v);
}

-- A handler that counts the messages it sends.
abbrev handler : Request → ℕ → Response × ℕ
handler request n = (record { status = 201; headers = []; body = some (b's' ∷ []) }, suc n)

abbrev request : Request
request = record {
  method = "POST";
  path = "/xrpc/sendMessage";
  authorization = some "Bearer h.c.s";
  body = some (b'm' ∷ []);
}

abbrev world : World (Tables codec ℕ)
world = record {
  store = record { idempotency_cache = []; rest = 0 };
  fails = λ _. false;
  step = 0;
  fresh = λ _. "id";
  drawn = 0;
}

of_user : extract_caller_did codec request.authorization ≡ some "did:web:u"
unfolding extract_caller_did strip_prefix split_at bytes_eq as_bytes
of_user = refl

under_key : extract_idempotency_key codec (b'm' ∷ []) ≡ some "key 1"
unfolding extract_idempotency_key bytes_eq
under_key = refl

is_post : is_write "POST" ≡ true
unfolding is_write
is_post = refl

keyed : IsKeyed codec request "did:web:u" "key 1"
keyed = record {
  bytes = b'm' ∷ [];
  write = is_post;
  caller = of_user;
  read = refl;
  keyed = under_key;
}

answer_json : document (b's' ∷ []) ≡ some sent
unfolding bytes_eq
answer_json = refl

kept : IsKept codec (handler request 0).0 sent
kept = record { bytes = b's' ∷ []; success = refl; body = refl; json = answer_json }

empty_cache :
    find (is_hit codec ℕ 5 "did:web:u" "key 1" request.path) world.store.idempotency_cache ≡ none
unfolding find
empty_cache = refl

alive : is_alive 900 (pos 6 +ℤ pos 86400) ≡ true
unfolding ◌+ℤ◌
alive = refl

idempotency_middleware-IsReplay_example :
    let first = idempotency_middleware codec ℕ handler (pos 86400) 5 6 request world in
    (first.0 ≡ ok (handler request 0).0)
    × IsReplay codec ℕ
        (handler request 0).0
        sent
        first.1
        (idempotency_middleware codec ℕ handler (pos 86400) 900 901 request first.1)
idempotency_middleware-IsReplay_example =
    idempotency_middleware-IsReplay codec ℕ handler handler (pos 86400) 5 6 900 901 request request
      "did:web:u" "key 1" sent world (λ n. refl) keyed keyed refl empty_cache kept alive

abbrev events : List CacheEvent
events = requested 5 6 request ∷ requested 7 8 request ∷ cleaned 9 ∷ []

apply_all-HasPast_example :
    HasPast codec ℕ handler (pos 86400) (apply_all codec ℕ handler (pos 86400) ([], world) events)
apply_all-HasPast_example = apply_all-HasPast codec ℕ handler (pos 86400) events ([], world) tt
