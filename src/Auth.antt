-- ===== src/Auth.antt =====
-- server/src/auth.rs: who sends a request.
pub mod Types
pub mod Keys
pub mod Nonces
pub mod Resolve
pub mod Token
pub mod Request
pub mod Roles
