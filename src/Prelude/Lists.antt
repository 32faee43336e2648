-- ===== src/Prelude/Lists.antt =====
-- Lists measured and indexed by native numbers, and tests and predicates by recursion on them.
use Prim.Native.Nat.{ℕ, zero, suc, ◌+◌}
use mathlib.Core.Path.{◌≡◌, refl}
use mathlib.Core.Logic.{◌⊎◌, inl, inr}
use mathlib.Core.Bool.{Bool, true, false, ◌||◌, ◌&&◌}
use mathlib.Core.List.{List, [], ◌∷◌, ◌++◌}
use mathlib.Core.Option.{Option, none, some}
use native.Mathlib.Omega.{arith}
use package.mls_ds.Prelude.Tests.{if◌then◌else◌, ◌==◌, ==_refl, Bool-cases}

module _ {ℓ} {A : Type ℓ} where
  abbrev pub length : List A → ℕ
  length [] = 0
  length (x ∷ xs) = suc (length xs)

  abbrev pub take : ℕ → List A → List A
  take zero xs = []
  take (suc n) [] = []
  take (suc n) (x ∷ xs) = x ∷ take n xs

  pub length-append : (xs ys : List A) → length (xs ++ ys) ≡ length xs + length ys
  length-append [] ys = omega arith
  length-append (x ∷ xs) ys = omega (arith, length-append xs ys)

  -- The rows of a table that pass a test, and whether some row does.
  unfoldable pub where_ : (A → Bool) → List A → List A
  where_ p [] = []
  where_ p (x ∷ xs) = let rest = where_ p xs in if p x then x ∷ rest else rest

  unfoldable pub exists : (A → Bool) → List A → Bool
  exists p [] = false
  exists p (x ∷ xs) = p x || exists p xs

  unfoldable pub find : (A → Bool) → List A → Option A
  find p [] = none
  find p (x ∷ xs) = if p x then some x else find p xs

-- A predicate on every entry.
abbrev pub All {ℓ κ} : {A : Type ℓ} → (A → Type κ) → List A → Type κ
All P [] = Unit
All P (x ∷ xs) = P x × All P xs

-- A predicate on some entry.
abbrev pub Any {ℓ} : {A : Type ℓ} → (A → Type 0) → List A → Type 0
Any P [] = ⊥
Any P (x ∷ xs) = P x ⊎ Any P xs

module _ {ℓ κ} {A : Type ℓ} where
  pub where_-All : (P : A → Type κ) (p : A → Bool) (xs : List A) → All P xs → All P (where_ p xs)
  unfolding where_
  where_-All P p [] h = tt
  where_-All P p (x ∷ xs) (h, hs) = elim (Bool-cases (p x)) [
    | inl t ↦ rw t (h, where_-All P p xs hs)
    | inr f ↦ rw f (where_-All P p xs hs)
  ]

  pub All-map : (P Q : A → Type κ) (xs : List A) → ((x : A) → P x → Q x) → All P xs → All Q xs
  All-map P Q [] f h = tt
  All-map P Q (x ∷ xs) f (h, hs) = (f x h, All-map P Q xs f hs)

  pub All-find :
      (P : A → Type κ) (p : A → Bool) (xs : List A) (a : A) → All P xs → find p xs ≡ some a → P a
  unfolding find
  All-find P p [] a h e = cc
  All-find P p (x ∷ xs) a (h, hs) e = elim (Bool-cases (p x)) [
    | inl t ↦ let k : some x ≡ some a = (rw t at e) in let same : x ≡ a = cc in rw (← same) h
    | inr f ↦ let k : find p xs ≡ some a = (rw f at e) in All-find P p xs a hs k
  ]

-- Equality of byte strings.
unfoldable pub bytes_eq : List ℕ → List ℕ → Bool
bytes_eq [] [] = true
bytes_eq [] (y ∷ ys) = false
bytes_eq (x ∷ xs) [] = false
bytes_eq (x ∷ xs) (y ∷ ys) = (x == y) && bytes_eq xs ys

pub bytes_eq_refl : (xs : List ℕ) → bytes_eq xs xs ≡ true
unfolding bytes_eq
bytes_eq_refl [] = refl
bytes_eq_refl (x ∷ xs) = rw (==_refl x) (bytes_eq_refl xs)
