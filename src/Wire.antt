-- ===== src/Wire.antt =====
-- The byte encodings that federation/receipt.rs and federation/ack.rs sign: `to_le_bytes`,
-- `to_be_bytes` and length prefixes. An `i32` or `i64` is its bit pattern, a number below 2 ^ 32 or
-- 2 ^ 64; a byte is a number below 256; a signed text is its list of UTF-8 bytes.
pub mod Injective
use Prim.Native.Char.{code}
use mls_ds.Prelude.{
  ℕ, ◌+◌, ◌-◌, ◌/◌, ◌%◌, ◌^◌, String, List, [], ◌∷◌, ◌++◌, ltb, if◌then◌else◌, length,
}

abbrev byte : ℕ → ℕ → ℕ
byte n k = n / 256 ^ k % 256

-- `(n as u32).to_le_bytes()`; the cast keeps the low 32 bits.
abbrev pub le_u32 : ℕ → List ℕ
le_u32 n = byte n 0 ∷ byte n 1 ∷ byte n 2 ∷ byte n 3 ∷ []

abbrev pub be_i32 : ℕ → List ℕ
be_i32 n = byte n 3 ∷ byte n 2 ∷ byte n 1 ∷ byte n 0 ∷ []

abbrev pub be_i64 : ℕ → List ℕ
be_i64 n =
    byte n 7 ∷ byte n 6 ∷ byte n 5 ∷ byte n 4 ∷ byte n 3 ∷ byte n 2 ∷ byte n 1 ∷ byte n 0 ∷ []

-- `(s.len() as u32).to_le_bytes()`, then `s.as_bytes()`, in front of what follows.
unfoldable pub prefixed : List ℕ → List ℕ → List ℕ
prefixed s rest = le_u32 (length s) ++ (s ++ rest)

utf8_char : ℕ → List ℕ
utf8_char c =
    if ltb c 0x80
    then c ∷ []
    else if ltb c 0x800
    then (0xC0 + c / 64) ∷ (0x80 + c % 64) ∷ []
    else if ltb c 0x10000
    then (0xE0 + c / 4096) ∷ (0x80 + c / 64 % 64) ∷ (0x80 + c % 64) ∷ []
    else (0xF0 + c / 262144) ∷ (0x80 + c / 4096 % 64) ∷ (0x80 + c / 64 % 64) ∷ (0x80 + c % 64) ∷ []

-- `as_bytes` of a text.
unfoldable pub as_bytes : String → List ℕ
unfolding utf8_char
as_bytes String.[] = []
as_bytes (String.◌∷◌ c s) = utf8_char (code c) ++ as_bytes s
