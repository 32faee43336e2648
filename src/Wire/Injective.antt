-- ===== src/Wire/Injective.antt =====
-- The encodings lose nothing within their widths.
use mls_ds.Prelude.{ℕ, ◌^◌, ◌<◌, ◌≡◌, refl, List, [], ◌∷◌, ◌++◌, arith, length}
use mls_ds.Wire.{le_u32, be_i32, be_i64, prefixed}

-- Two texts of one length, each with a rest, are equal part by part.
pub append_split :
    (xs ys ra rb : List ℕ) → length xs ≡ length ys → xs ++ ra ≡ ys ++ rb → (xs ≡ ys) × (ra ≡ rb)
append_split [] [] ra rb n e = (refl, e)
append_split [] (y ∷ ys) ra rb n e = absurd (omega arith)
append_split (x ∷ xs) [] ra rb n e = absurd (omega arith)
append_split (x ∷ xs) (y ∷ ys) ra rb n e =
    let tail = append_split xs ys ra rb (omega arith) (cc) in
    let head : x ≡ y = cc in (ground (arith, head, tail.0), tail.1)

pub le_u32_inj : (m n : ℕ) → m < 2 ^ 32 → n < 2 ^ 32 → le_u32 m ≡ le_u32 n → m ≡ n
le_u32_inj m n hm hn e = ground arith

pub be_i32_inj : (m n : ℕ) → m < 2 ^ 32 → n < 2 ^ 32 → be_i32 m ≡ be_i32 n → m ≡ n
be_i32_inj m n hm hn e = ground arith

pub be_i64_inj : (m n : ℕ) → m < 2 ^ 64 → n < 2 ^ 64 → be_i64 m ≡ be_i64 n → m ≡ n
be_i64_inj m n hm hn e = ground arith

pub prefixed_inj :
    (s t ra rb : List ℕ)
    → length s < 2 ^ 32
    → length t < 2 ^ 32
    → prefixed s ra ≡ prefixed t rb
    → (s ≡ t) × (ra ≡ rb)
unfolding prefixed
prefixed_inj s t ra rb hs ht e =
    let parts = append_split (le_u32 (length s)) (le_u32 (length t)) (s ++ ra) (t ++ rb) refl e in
    append_split s t ra rb (le_u32_inj (length s) (length t) hs ht parts.0) parts.1
