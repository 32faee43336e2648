-- ===== src/Lib.antt =====
-- A model of the delivery service in server/src, an MLS delivery service for federated group chats: the
-- conversation actors that order the commits and messages of a group, and the parts of the federation
-- protocol between delivery services (DS).
--
-- Parts and files:
-- - Sql: PostgreSQL as the code uses it through sqlx. A handler is a function from a world to a result
--   and a world; the world has the tables, the fate of each statement that is still to run, and the
--   identifiers still to be drawn. A statement is one atomic step that may fail; a transaction that
--   does not commit changes nothing, and a COMMIT that reports an error did not take effect. `After`
--   says what holds of a result or of an error.
-- - Store, with Store.Messages: the tables conversations, members, messages and welcome_messages of
--   server/migrations, with their primary keys, unique indexes and foreign keys.
-- - Actor: server/src/actors/conversation.rs and messages.rs. ActorState is ConversationActorState;
--   Actor.Membership is handle_add_members and handle_remove_member (with
--   try_advance_conversation_epoch_tx of db.rs), and below it Commits is about what they do to
--   conversations and messages, Rows, Joined and Added to members and welcomes; Actor.Messages is
--   handle_send_message, Actor.Unread is handle_increment_unread and handle_reset_unread,
--   Actor.Handle is pre_start, handle and the mailbox. Actor.Invariant relates an actor to the
--   tables; Actor.Stale is about one whose conversation has moved on.
-- - Did: server/src/identity.rs and device_utils.rs.
-- - Wire: the byte encodings that receipts and acknowledgments sign.
-- - Federation: server/src/federation. Receipt is receipt.rs, Ack is ack.rs, Sequencer is sequencer.rs,
--   Transfer is transfer.rs, Queue is queue.rs (Queue.Deliver its worker, Endpoint its endpoint of a
--   did:web), with the error type of outbound.rs and store_delivery_ack of db.rs, PeerPolicy is
--   peer_policy.rs. Sequencer and Transfer work on the table conversations that the actors use; the
--   sequencer signs with Receipt, the queue verifies with Ack. Address, Url, Repo and Resolver are
--   resolver.rs: the tests of addresses and of URLs, the look-up in a user's repository, and the cache.
--   ServiceAuth is service_auth.rs, whose tokens Auth checks at the other DS.
-- - Realtime: Realtime.Cursor is server/src/realtime/cursor.rs.
-- - KeyPackages: the statements of server/src/db.rs on the table key_packages; OpenMLS's check of a
--   package is the parameter `validate`.
-- - Auth: server/src/auth.rs. Types is its errors, claims and DID documents, Token is verify_jwt,
--   Nonces is enforce_standard and enforce_standard_with_replay_store with its cleanup, Resolve is
--   resolve_did with its cache and the tests of hosts, Keys is extract_p256_key, which the queue
--   calls, and Request is from_request_parts, which calls Token and Nonces and, for an endpoint of
--   another DS, Federation.PeerPolicy. Roles is the checks of admins, moderators and members.
-- - Middleware: Middleware.Idempotency is server/src/middleware/idempotency.rs, around any handler.
--
-- Parameters: Es256 is what the packages p256 and sha2 do for receipts and acknowledgments, with the
-- laws that the code relies on; Codec is base64 and hex; Remote is what a delivery asks of the
-- network, with KeyParser, the packages that read keys; Ulids is the package ulid; Net and Web are
-- the package url, DNS, HTTP and the parser of addresses, Json and the middleware's own Codec are
-- serde_json with urlencoding and base64; Jose is what auth.rs calls of base64, serde_json,
-- multibase, p256 and k256, DidNet its HTTP, DNS and parser of addresses, Jwt is jsonwebtoken with
-- the PEM parser of p256 in service_auth.rs, and Limits what the rate limiters answer.
-- Federation.Signature.Example has the laws of Es256.
--
-- Numbers: an i32 or i64 that is encoded or compared as an epoch is its bit pattern; current_epoch +
-- 1 in sequencer.rs wraps at 2 ^ 32, and adding one to an INTEGER beyond the largest i32 is an error
-- of the database. Times are numbers: microseconds in the tables of the actors and the peers,
-- seconds in the queue, the resolver, the middleware and the authentication. There is no fuel: every
-- loop is over a list.
--
-- Not modelled: the actor's background worker (envelopes, SSE, push), HTTP and WebSocket handlers,
-- the other statements of db.rs, upstream.rs and mailbox.rs, what auth.rs reads at startup, periodic
-- jobs, generated types and logging. The timer that calls the queue's batch is left out. The queue
-- keeps its own parameter for the tests of hosts in resolver.rs and for resolve_did, and a panic of
-- its worker is an error value. DidNet's HTTP follows redirects, as reqwest does, and where they
-- lead is not modelled.
pub mod Prelude
pub mod Did
pub mod Wire
pub mod Federation
pub mod Sql
pub mod Store
pub mod Actor
pub mod Realtime
pub mod Middleware
pub mod Auth
pub mod KeyPackages
