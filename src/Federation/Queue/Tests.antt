-- ===== src/Federation/Queue/Tests.antt =====
-- A delivery that a peer leaves unanswered.
use mls_ds.Prelude.{
  ℕ, ◌≡◌, refl, true, false, none, some, List, [], ◌∷◌, arith, All, find, bytes_eq,
}
use mls_ds.Wire.{as_bytes, prefixed}
use mls_ds.Auth.Types.{invalid_signature, VerificationMethod}
use mls_ds.Auth.Keys.{KeyParser, extract_p256_key, first_key}
use mls_ds.Prelude.Strings.{to_ascii_uppercase}
use mls_ds.Prelude.Results.{ok, err}
use mls_ds.Sql.{World, query}
use mls_ds.Federation.Signature.Example.{plain}
use mls_ds.Federation.Queue.{QueueItem, Tables, pending, timeout, update}
use mls_ds.Federation.Queue.Deliver.{
  Remote, process_item, process_pending_batch, resolve_target_endpoint, store_delivery_ack,
  upsert_ack, panicked,
}
use mls_ds.Federation.Ack.{DeliveryAck, sign_ack, verify, canonical_bytes}
use mls_ds.Federation.Endpoint.{is_blank}
use mls_ds.Federation.Queue.Drain.{row_of, visits, IsSettled, visits-IsSettled}
use mls_ds.Federation.Queue.Acks.{IsBacked, unverified, process_item-IsBacked}
use mls_ds.Federation.Queue.Fate.{Fate, HasPanic}
use mls_ds.Federation.Queue.Bounds.{IsBounded}
use mls_ds.Federation.Queue.Batch.{process_pending_batch-IsBounded}

abbrev item : QueueItem
item = record {
  id = "q1";
  target_ds_did = "did:web:b";
  target_endpoint = "https://b";
  method = "deliver";
  payload = 1 ∷ [];
  convo_id = "room";
  retry_count = 2;
  max_retries = 5;
}

abbrev world : World Tables
world = record {
  store = record {
    outbound_queue =
        record {
          item = item;
          created_at = 0;
          next_retry_at = 5;
          last_error = none;
          status = pending;
        }
        ∷ [];
    ds_endpoints = λ _. none;
    delivery_acks = [];
  };
  fails = λ _. false;
  step = 0;
  fresh = λ _. "id";
  drawn = 0;
}

abbrev point : List ℕ
point =
    0 ∷ 0 ∷ 0 ∷ 0 ∷ 0 ∷ 0 ∷ 0 ∷ 0 ∷ 0 ∷ 0 ∷ 0 ∷ 0 ∷ 0 ∷ 0 ∷ 0 ∷ 0 ∷ 0 ∷ 0 ∷ 0 ∷ 0 ∷ 0 ∷ 0 ∷ 0 ∷ 0
    ∷ 0 ∷ 0 ∷ 0 ∷ 0 ∷ 0 ∷ 0 ∷ 0 ∷ 0 ∷ 0 ∷ []

-- Every text of base64 decodes to one byte, every multibase text to a compressed key, which is 7.
abbrev keys : KeyParser ℕ
keys = record {
  decode = λ _. ok (1 ∷ []);
  multibase = λ _. ok (0x80 ∷ 0x24 ∷ point);
  from_affine_coordinates = λ _ _. none;
  from_sec1_bytes = λ _. some 7;
}

abbrev silent : Remote plain
silent = record {
  auth_sign = λ _ _. ok "token";
  from_slice = λ b. some b;
  call_procedure = λ endpoint method _ _. err (timeout endpoint method);
  validate = λ _. ok tt;
  resolve_did = λ did. err invalid_signature;
  keys = keys;
}

process_pending_batch-IsBounded_example :
    All IsBounded (process_pending_batch plain silent 100 world).1.store.outbound_queue
process_pending_batch-IsBounded_example =
    process_pending_batch-IsBounded plain silent 100 world (((λ same. refl), tt), tt)
      (omega arith, tt)

in_queue :
    row_of "q1" world.store.outbound_queue
    ≡ some (record {
      item = item;
      created_at = 0;
      next_retry_at = 5;
      last_error = none;
      status = pending;
    })
unfolding find
in_queue = refl

calm : HasPanic plain silent → ⊥
calm (did, doc, h, k) = cc

visits-IsSettled_example :
    IsSettled plain "q1"
      (visits plain "q1" ((100, silent) ∷ (200, silent) ∷ (300, silent) ∷ (400, silent) ∷ []) world)
visits-IsSettled_example =
    visits-IsSettled plain "q1" ((100, silent) ∷ (200, silent) ∷ (300, silent) ∷ (400, silent) ∷ [])
      world
      (record {
        item = item;
        created_at = 0;
        next_retry_at = 5;
        last_error = none;
        status = pending;
      })
      (λ n. refl) in_queue (omega arith) (omega arith) (calm, (calm, (calm, (calm, tt))))

-- An old row whose signature was never checked, and what the peer sends: its signature is of key 7.
abbrev old_ack : DeliveryAck
old_ack = record {
  message_id = 1 ∷ [];
  convo_id = 2 ∷ [];
  epoch = 0;
  receiver_ds_did = 3 ∷ [];
  acked_at = 9;
  signature = [];
}

abbrev sent_ack : DeliveryAck
sent_ack =
    sign_ack plain (record { signing_key = 7; ds_did = as_bytes "did:web:b" }) 50 (4 ∷ [])
      (as_bytes "room") 3

abbrev world_with_ack : World Tables
world_with_ack = record world {
  store = record world.store { delivery_acks = record { ack = old_ack; verified = false } ∷ [] };
}

-- A peer that accepts and acknowledges, and publishes a document with one method.
abbrev answering : VerificationMethod → Remote plain
answering vm = record silent {
  call_procedure = λ _ _ _ _. ok (record { accepted = true; message = none; ack = some sent_ack });
  resolve_did = λ _. ok (record { id = "did:web:b"; verification_method = vm ∷ [] });
}

abbrev multikey : VerificationMethod
multikey = record { id = "#atproto"; public_key_multibase = some "z"; public_key_jwk = none }

-- The coordinates have one byte each.
abbrev short : VerificationMethod
short = record {
  id = "#atproto";
  public_key_multibase = none;
  public_key_jwk = some (record { kty = "EC"; crv = "P-256"; x = "AQ"; y = some "AQ" });
}

process_item-IsBacked_example :
    All
      (IsBacked plain (answering multikey))
      (process_item plain (answering multikey) 100 item world_with_ack).1.store.delivery_acks
process_item-IsBacked_example =
    process_item-IsBacked plain (answering multikey) 100 item world_with_ack (unverified refl, tt)

verifies :
    (process_item plain (answering multikey) 100 item world_with_ack).1.store.delivery_acks
    ≡ record { ack = old_ack; verified = false } ∷ record { ack = sent_ack; verified = true } ∷ []
unfolding process_item resolve_target_endpoint is_blank store_delivery_ack upsert_ack verify
    sign_ack canonical_bytes as_bytes bytes_eq extract_p256_key first_key update find prefixed query
verifies = refl

panics_on_short : (process_item plain (answering short) 100 item world).0 ≡ err panicked
unfolding process_item resolve_target_endpoint is_blank store_delivery_ack upsert_ack verify
    sign_ack canonical_bytes as_bytes bytes_eq extract_p256_key first_key to_ascii_uppercase
panics_on_short = refl
