-- ===== src/Realtime/Cursor/Tests.antt =====
-- Three cursors, two of them in one millisecond.
use mls_ds.Prelude.{
  ℕ, ◌+◌, ◌-◌, ◌*◌, ◌/◌, ◌%◌, ◌^◌, ◌<◌, ◌≡◌, refl, true, Option, none, some, List, [], ◌∷◌, arith,
  ◌==◌, if◌then◌else◌,
}
use mls_ds.Realtime.Cursor.{Ulids, CursorGenerator, Call, next, stream_key}
use mls_ds.Realtime.Cursor.Ascending.{cursors, is_steady, Ascending, cursors-Ascending}

-- The time stands in the upper 48 of 128 bits.
abbrev plus_one : ℕ → Option ℕ
plus_one u = if u % 2 ^ 80 == 2 ^ 80 - 1 then none else some (u + 1)

lt-time : (a b : ℕ) → a / 2 ^ 80 < b / 2 ^ 80 → a < b
lt-time a b h = omega arith

lt-plus_one : (a b : ℕ) → plus_one a ≡ some b → a < b
lt-plus_one a b h = ground arith

abbrev ulids : Ulids
ulids = record {
  timestamp_ms = λ u. u / 2 ^ 80;
  increment = plus_one;
  lt-timestamp_ms = lt-time;
  lt-increment = lt-plus_one;
}

abbrev generator : CursorGenerator
generator = record { last_ulids = λ _. none }

abbrev call : ℕ → Call
call drawn = record { convo_id = "room"; event_type = "message"; drawn = drawn; redrawn = 0 }

abbrev calls : List Call
calls = call (5 * 2 ^ 80 + 9) ∷ call (5 * 2 ^ 80 + 3) ∷ call (6 * 2 ^ 80) ∷ []

steady : is_steady ulids generator calls ≡ true
unfolding is_steady next stream_key
steady = refl

cursors-Ascending_example :
    Ascending ulids "room:message"
      (generator.last_ulids "room:message")
      (cursors ulids generator calls)
cursors-Ascending_example = cursors-Ascending ulids "room:message" calls generator steady
