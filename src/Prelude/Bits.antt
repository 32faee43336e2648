-- ===== src/Prelude/Bits.antt =====
-- `bit_and` of a word of sixteen bits with the mask of a prefix. The libraries have no law for it, so
-- the words are gone through, half of them at a time.
use Prim.Native.Nat.{ℕ, zero, suc, ◌+◌, ◌*◌, ◌/◌, ◌^◌, ◌≤◌, ◌<◌, bit_and}
use mathlib.Core.Path.{◌≡◌, refl}
use mathlib.Core.Logic.{inl, inr}
use mathlib.Core.Bool.{Bool, true, ◌&&◌}
use native.Mathlib.Omega.{arith}
use package.mls_ds.Prelude.Tests.{both, ltb, ltb→lt, ◌==◌, ==_iff, Bool-cases}

-- The test of the `2 ^ size` numbers from `start` on.
everywhere : (ℕ → Bool) → ℕ → ℕ → Bool
everywhere test start zero = test start
everywhere test start (suc size) =
    everywhere test start size && everywhere test (start + 2 ^ size) size

holds_at :
    (test : ℕ → Bool) (start size x : ℕ)
    → everywhere test start size ≡ true
    → start ≤ x
    → x < start + 2 ^ size
    → test x ≡ true
unfolding everywhere
holds_at test start zero x h lo hi = let e : start ≡ x = omega arith in rw (← e) h
holds_at test start (suc size) x h lo hi =
    let halves = both (everywhere test start size) (everywhere test (start + 2 ^ size) size) h in
    elim (Bool-cases (ltb x (start + 2 ^ size))) [
      | inl t ↦ holds_at test start size x halves.0 lo (ltb→lt x (start + 2 ^ size) t)
      | inr f ↦ holds_at test (start + 2 ^ size) size x halves.1 (ground arith) (ground arith)
    ]

prefix_is : ℕ → ℕ → ℕ → Bool
prefix_is mask unit x = bit_and x mask == x / unit * unit

words7 : everywhere (prefix_is 0xfe00 512) 0 16 ≡ true
unfolding everywhere prefix_is
words7 = refl

words8 : everywhere (prefix_is 0xff00 256) 0 16 ≡ true
unfolding everywhere prefix_is
words8 = refl

words10 : everywhere (prefix_is 0xffc0 64) 0 16 ≡ true
unfolding everywhere prefix_is
words10 = refl

of_words :
    (mask unit : ℕ)
    → everywhere (prefix_is mask unit) 0 16 ≡ true
    → (x : ℕ) → x < 65536
    → bit_and x mask ≡ x / unit * unit
unfolding prefix_is
of_words mask unit h x lt =
    (==_iff (bit_and x mask) (x / unit * unit)).0
      (holds_at (prefix_is mask unit) 0 16 x h (omega arith) (omega arith))

-- The prefixes of seven, eight and ten bits.
pub bit_and_top7 : (x : ℕ) → x < 65536 → bit_and x 0xfe00 ≡ x / 512 * 512
bit_and_top7 = of_words 0xfe00 512 words7

pub bit_and_top8 : (x : ℕ) → x < 65536 → bit_and x 0xff00 ≡ x / 256 * 256
bit_and_top8 = of_words 0xff00 256 words8

pub bit_and_top10 : (x : ℕ) → x < 65536 → bit_and x 0xffc0 ≡ x / 64 * 64
bit_and_top10 = of_words 0xffc0 64 words10
