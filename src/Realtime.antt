-- ===== src/Realtime.antt =====
-- server/src/realtime: the cursors of the event streams.
pub mod Cursor
