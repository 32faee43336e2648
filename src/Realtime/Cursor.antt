-- ===== src/Realtime/Cursor.antt =====
-- realtime/cursor.rs: `CursorGenerator`. A ULID is a number of 128 bits; what the package `ulid` does is
-- `Ulids`, with what the code relies on as its laws. The map of last ULIDs is a function.
pub mod Ascending
mod Tests
use Prim.Native.String.{◌++◌}
use mls_ds.Prelude.{
  ℕ, ◌<◌, String, ◌≡◌, Bool, true, false, Option, none, some, ltb, str_eq, if◌then◌else◌,
}

pub record Ulids : Type 0 where
  pub timestamp_ms : ℕ → ℕ
  -- The next ULID of the same millisecond; `none` where its random bits overflow.
  pub increment : ℕ → Option ℕ
  pub lt-timestamp_ms : (a b : ℕ) → timestamp_ms a < timestamp_ms b → a < b
  pub lt-increment : (a b : ℕ) → increment a ≡ some b → a < b

pub record CursorGenerator : Type 0 where
  pub last_ulids : String → Option ℕ

-- A call of `next`: `drawn` is what `Ulid::new` returns, `redrawn` what it returns a millisecond later.
pub record Call : Type 0 where
  pub convo_id : String
  pub event_type : String
  pub drawn : ℕ
  pub redrawn : ℕ

unfoldable pub stream_key : String → String → String
stream_key convo_id event_type = convo_id ++ (":" ++ event_type)

abbrev pub or_redrawn : Option ℕ → ℕ → ℕ
or_redrawn (some incremented) redrawn = incremented
or_redrawn none redrawn = redrawn

module _ (ulids : Ulids) where
  abbrev pub after_last : Option ℕ → Call → ℕ
  after_last none c = c.drawn
  after_last (some last) c =
      if ltb (ulids.timestamp_ms last) (ulids.timestamp_ms c.drawn)
      then c.drawn
      else or_redrawn (ulids.increment last) c.redrawn

  unfoldable pub next : CursorGenerator → Call → ℕ × CursorGenerator
  next g c =
      let key = stream_key c.convo_id c.event_type in
      let new = after_last (g.last_ulids key) c in
      (new, record { last_ulids = λ k. if str_eq key k then some new else g.last_ulids k })
