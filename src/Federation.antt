-- ===== src/Federation.antt =====
-- server/src/federation: the parts of the protocol between delivery services (DS).
pub mod Signature
pub mod Receipt
pub mod Ack
pub mod Sequencer
pub mod Transfer
pub mod Endpoint
pub mod Address
pub mod Url
pub mod Repo
pub mod Resolver
pub mod Queue
pub mod PeerPolicy
pub mod ServiceAuth
