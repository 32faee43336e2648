-- ===== src/Store/Messages.antt =====
-- The messages table: sequence numbers, and the constraints on an INSERT.
use mls_ds.Prelude.{
  ℕ, ◌^◌, max, ltb, String, Bool, true, false, not, ◌&&◌, ◌||◌, Option, none, some, List, [], ◌∷◌,
  if◌then◌else◌, str_eq, exists,
}
use mls_ds.Store.{Store, Message, is_some, is_value}

-- `COALESCE(MAX(seq), 0)` over the rows with this `convo_id`
unfoldable pub max_seq : String → List Message → ℕ
max_seq convo [] = 0
max_seq convo (m ∷ ms) = max (if str_eq m.convo_id convo then m.seq else 0) (max_seq convo ms)

abbrev pub same_value : Option String → Option String → Bool
same_value none b = false
same_value (some a) b = is_value b a

-- The row breaks the primary key or one of the two unique indexes.
abbrev pub conflicts : Message → Message → Bool
conflicts new old =
    str_eq old.id new.id
    || (str_eq old.convo_id new.convo_id && same_value new.msg_id old.msg_id)
    || same_value new.idempotency_key old.idempotency_key

-- A value that an INTEGER column holds; a larger one is an error of the statement.
abbrev pub is_integer : Option ℕ → Bool
is_integer none = true
is_integer (some n) = ltb n (2 ^ 31)

-- INSERT INTO messages; `none` where a constraint, the foreign key included, or a column's type refuses
-- the row.
unfoldable pub insert_message : Message → Store → Option Store
insert_message m s =
    if is_integer m.padded_size
      && (is_some (s.conversations m.convo_id) && not (exists (conflicts m) s.messages))
    then some (record s { messages = m ∷ s.messages })
    else none
