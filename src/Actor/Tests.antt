-- ===== src/Actor/Tests.antt =====
-- An actor of a conversation of two, at work.
use mls_ds.Prelude.{
  ℕ, String, ◌≡◌, refl, false, Option, none, some, List, [], ◌∷◌, arith, str_eq, find, exists,
  if◌then◌else◌, ◌==◌, All,
}
use mls_ds.Prelude.Results.{ok}
use mls_ds.Sql.{World, After, transaction, query}
use mls_ds.Store.{Store, Conversation, Member, Message}
use mls_ds.Actor.{ActorState, Codec, notify_new_message}
use mls_ds.Actor.Membership.{handle_add_members, handle_remove_member}
use mls_ds.Actor.Membership.Rows.{Removed}
use mls_ds.Actor.Membership.Added.{Added}
use mls_ds.Actor.Membership.Outcome.{
  Outcome, handle_add_members-Outcome, handle_remove_member-Outcome,
}
use mls_ds.Actor.{try_send}
use mls_ds.Store.Messages.{max_seq, insert_message}
use mls_ds.Actor.Messages.{
  send_tx, find_msg_id, find_key, after_msg_id, after_key, insert_sent, after_tx, bucket, Sent,
  sent_row, handle_send_message, count_unread, bump_unread,
}
use mls_ds.Actor.Messages.Outcome.{SendResult, SendFailure, handle_send_message-Outcome}
use mls_ds.Actor.Messages.Returns.{IsReturned, handle_send_message-IsReturned}
use mls_ds.Actor.Messages.Once.{handle_send_message-once}
use mls_ds.Actor.Stale.{IsRefused, carries_commit, run-stale}
use mls_ds.Actor.Invariant.{IsConsistent, commits}
use mls_ds.Actor.Invariant.Run.{run-IsConsistent}
use mls_ds.Actor.Handle.{
  ConvoMessage, add_members, remove_member, send_message, increment_unread, reset_unread, run,
  replies,
}

abbrev room : Conversation
room = record {
  current_epoch = 0;
  sequencer_ds = none;
  updated_at = 0;
  group_info = none;
  group_info_epoch = none;
}

abbrev member : String → Option String → Member
member did user = record {
  convo_id = "room";
  member_did = did;
  user_did = user;
  joined_at = 0;
  left_at = none;
  is_admin = false;
  needs_rejoin = false;
  unread_count = 0;
  ds_did = none;
}

abbrev tables : Store
tables = record {
  conversations = λ id. if str_eq "room" id then some room else none;
  members = member "did:a#1" (some "did:a") ∷ member "did:b#1" (some "did:b") ∷ [];
  messages = [];
  welcomes = [];
}

abbrev world : World Store
world = record {
  store = tables;
  fails = λ _. false;
  step = 0;
  fresh = λ n. if n == 0 then "id" else if n == 1 then "id1" else "id2";
  drawn = 0;
}

-- The statement after the first transaction of a message fails.
abbrev broken : World Store
broken = record world { fails = λ n. n == 6 }

abbrev actor : ActorState
actor = record { convo_id = "room"; current_epoch = 0; unread_counts = []; jobs = [] }

abbrev codec : Codec
codec = record { base64_decode = λ _. some (9 ∷ []); hex_decode = λ _. none }

abbrev hello : Sent
hello = record {
  sender_did = "did:a";
  ciphertext = 7 ∷ [];
  msg_id = "m1";
  epoch = 0;
  padded_size = 512;
  idempotency_key = some "k1";
}

abbrev hello_row : Message
hello_row = sent_row "room" 3_000_000 hello "id" 1

abbrev after_hello : Store
after_hello = record tables {
  members =
      member "did:a#1" (some "did:a")
      ∷ record (member "did:b#1" (some "did:b")) { unread_count = 1 }
      ∷ [];
  messages = hello_row ∷ [];
}

abbrev world_after : World Store
world_after = record world { store = after_hello; step = 7; drawn = 1 }

abbrev actor_after : ActorState
actor_after = record actor { jobs = notify_new_message "m1" "did:a" (7 ∷ []) 1 0 false ∷ [] }

sends :
    handle_send_message actor 3_000_000 hello world
    ≡ (ok (actor_after, ("id", 3_000_000)), world_after)
unfolding handle_send_message transaction query send_tx find_msg_id find find_key after_msg_id
    after_key insert_sent max_seq insert_message exists after_tx count_unread bump_unread try_send
    bucket
sends = refl

-- Another message that was stored in between, and an actor that has started again.
abbrev other_row : Message
other_row =
    sent_row "room" 4_000_000 (record hello { msg_id = "m2"; idempotency_key = none }) "id2" 2

abbrev world_later : World Store
world_later = record world_after {
  store = record after_hello { messages = other_row ∷ hello_row ∷ [] };
}

handle_send_message-once_example :
    After
      (λ x u. (x.1 ≡ ("id", 3_000_000)) × (x.0 ≡ actor) × (u.store ≡ world_later.store))
      (λ _ u. u.store ≡ world_later.store)
      (handle_send_message actor 9_000_000 hello world_later)
handle_send_message-once_example =
    handle_send_message-once actor 3_000_000 9_000_000 hello world actor_after actor
      ("id", 3_000_000) world_after world_later (other_row ∷ []) sends refl refl (refl, tt)

-- Beginning, three SELECTs, the INSERT and COMMIT succeed, the UPDATE of the unread counts does not.
abbrev broken_after : World Store
broken_after = record broken {
  store = record tables { messages = hello_row ∷ [] };
  step = 7;
  drawn = 1;
}

handle_send_message-Outcome_example :
    After
      (SendResult actor 3_000_000 hello tables)
      (λ _ w'. SendFailure actor 3_000_000 hello tables w')
      (handle_send_message actor 3_000_000 hello world)
handle_send_message-Outcome_example = handle_send_message-Outcome actor 3_000_000 hello world

handle_add_members-Outcome_example :
    After
      (Outcome actor 5
        (some (1 ∷ 2 ∷ []))
        (Added codec "room" 5 (some "d2VsY29tZQ==") none ("did:c#1" ∷ "did:b#1" ∷ []))
        tables)
      (λ _ w'. w'.store ≡ tables)
      (handle_add_members codec actor 5
        ("did:c#1" ∷ "did:b#1" ∷ [])
        (some (1 ∷ 2 ∷ []))
        (some "d2VsY29tZQ==")
        none
        world)
handle_add_members-Outcome_example =
    handle_add_members-Outcome codec actor 5 world ("did:c#1" ∷ "did:b#1" ∷ []) (some (1 ∷ 2 ∷ []))
      (some "d2VsY29tZQ==") none

handle_remove_member-Outcome_example :
    After
      (Outcome actor 5 (some (1 ∷ 2 ∷ [])) (Removed 5 "room" "did:b#1") tables)
      (λ _ w'. w'.store ≡ tables)
      (handle_remove_member actor 5 "did:b#1" (some (1 ∷ 2 ∷ [])) world)
handle_remove_member-Outcome_example =
    handle_remove_member-Outcome codec actor 5 world "did:b#1" (some (1 ∷ 2 ∷ []))

at_start : IsConsistent 0 actor tables
unfolding commits
at_start = record {
  row = room;
  found = refl;
  epoch = refl;
  small = omega arith;
  tally = refl;
  sequenced = tt;
}

abbrev mailbox : List (ℕ × ConvoMessage)
mailbox =
    (5, add_members ("did:c#1" ∷ []) (some (1 ∷ 2 ∷ [])) none none)
    ∷ (6, send_message hello)
    ∷ (7, remove_member "did:b#1" (some (3 ∷ [])))
    ∷ (8, increment_unread "did:a#1")
    ∷ (9, reset_unread "did:b")
    ∷ []

run-IsConsistent_example : let r = run codec actor world mailbox in IsConsistent 0 r.0 r.1.store
run-IsConsistent_example = run-IsConsistent 0 codec mailbox actor world at_start

handle_send_message-IsReturned_example :
    IsReturned (handle_send_message actor 3_000_000 hello world)
unfolding exists
handle_send_message-IsReturned_example =
    handle_send_message-IsReturned actor 3_000_000 hello world room (λ n. refl) refl refl
      (omega arith) refl

-- The row is at epoch 4, the actor still at epoch 0.
abbrev moved_room : Conversation
moved_room = record room { current_epoch = 4 }

abbrev moved_world : World Store
moved_world = record world {
  store = record tables {
    conversations = λ id. if str_eq "room" id then some moved_room else none;
  };
}

abbrev commits_only : List (ℕ × ConvoMessage)
commits_only =
    (5, add_members ("did:c#1" ∷ []) (some (1 ∷ [])) none none)
    ∷ (6, remove_member "did:b#1" (some (2 ∷ [])))
    ∷ []

run-stale_example :
    ((run codec actor moved_world commits_only).0 ≡ actor)
    × ((run codec actor moved_world commits_only).1.store ≡ moved_world.store)
    × All IsRefused (replies codec actor moved_world commits_only)
unfolding carries_commit
run-stale_example =
    run-stale codec commits_only actor moved_world moved_room (λ e. omega (arith, e)) refl
      (refl, (refl, tt))
