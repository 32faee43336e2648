-- ===== src/Sql.antt =====
-- PostgreSQL as the code of server/src uses it through `sqlx`: a statement reads and changes the
-- tables in one step, or fails; a transaction that does not commit changes nothing. Which statements
-- fail for reasons outside the tables (a lost connection) is up to the environment: `fails n` is the
-- fate of the n-th one. `fresh n` is the n-th identifier that `Uuid::new_v4` or `Ulid::new` draws.
mod Defs
mod Laws
unfoldable pub use Defs.*
pub use Laws.*
