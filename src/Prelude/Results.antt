-- ===== src/Prelude/Results.antt =====
-- Rust's `Result<A, E>`, and `?` as the bind of a `do` block.
use mathlib.Core.Path.{◌≡◌, refl}
use mathlib.Core.Option.{Option, none, some}

pub data Result (E A : Type 0) : Type 0 where
  ok : A → Result E A
  err : E → Result E A

infixl 5 ◌>>=◌ ◌>>◌
abbrev pub ◌>>=◌ : {E A B : Type 0} → Result E A → (A → Result E B) → Result E B
ok a >>= f = f a
err e >>= f = err e

abbrev pub ◌>>◌ : {E B : Type 0} → Result E (Unit {0}) → Result E B → Result E B
m >> k = m >>= λ _. k

-- `ok_or`.
abbrev pub ok_or : {E A : Type 0} → Option A → E → Result E A
ok_or none e = err e
ok_or (some a) e = ok a

-- `map_err`.
abbrev pub map_err : {E F A : Type 0} → (E → F) → Result E A → Result F A
map_err f (ok a) = ok a
map_err f (err e) = err (f e)

-- What holds of a result that is no error.
abbrev pub OnOk : {E A : Type 0} → (A → Type 0) → Result E A → Type 0
OnOk P (ok a) = P a
OnOk P (err e) = Unit

pub OnOk-bind :
    {E A B : Type 0} (P : B → Type 0) (m : Result E A) (k : A → Result E B)
    → ((a : A) → m ≡ ok a → OnOk P (k a))
    → OnOk P (m >>= k)
OnOk-bind P (ok a) k h = h a refl
OnOk-bind P (err e) k h = tt

pub OnOk-then :
    {E B : Type 0} (P : B → Type 0) (m : Result E (Unit {0})) (k : Result E B)
    → (m ≡ ok tt → OnOk P k)
    → OnOk P (m >> k)
OnOk-then P (ok a) k h = h refl
OnOk-then P (err e) k h = tt
