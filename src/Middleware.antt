-- ===== src/Middleware.antt =====
-- server/src/middleware: what stands between the router and the handlers.
pub mod Idempotency
