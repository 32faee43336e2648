-- ===== src/Prelude/Strings.antt =====
-- The methods of Rust's `str` that the code uses: `to_ascii_lowercase`, `ends_with` and `split(',')`.
use Prim.Native.Nat.{ℕ, zero, suc, ◌-◌, ◌/◌, ◌%◌}
use Prim.Native.Char.{Char, code}
use Prim.Native.String.{String, [], ◌∷◌, ◌++◌}
use mathlib.Core.Path.{◌≡◌, refl, ap, sym, ◌∙◌}
use mathlib.Core.Logic.{inl, inr}
use mathlib.Core.Bool.{Bool, true, false, ◌&&◌, ◌||◌}
use mathlib.Core.List.{List}
use text.Mathlib.Text.{◌==◌ as str_eq}
use text.Mathlib.TextLemmas.{nil-append, cons-append}
use text.Mathlib.TextEquality.{eq_iff}
use text.Mathlib.TextPositions.{eq_refl}
use package.mls_ds.Prelude.Tests.{leb, ◌==◌, if◌then◌else◌, Bool-cases}

abbrev char_at : ℕ → String → Char → Char
char_at n [] c = c
char_at zero (d ∷ s) c = d
char_at (suc n) (d ∷ s) c = char_at n s c

-- A byte as `{:02x}` prints it.
unfoldable pub lower_hex : ℕ → String
lower_hex byte =
    char_at (byte / 16) "0123456789abcdef" "0" ∷ char_at (byte % 16) "0123456789abcdef" "0" ∷ []

abbrev pub lower_char : Char → Char
lower_char c =
    if leb 65 (code c) && leb (code c) 90
    then char_at (code c - 65) "abcdefghijklmnopqrstuvwxyz" c
    else c

unfoldable pub to_ascii_lowercase : String → String
to_ascii_lowercase [] = []
to_ascii_lowercase (c ∷ s) = lower_char c ∷ to_ascii_lowercase s

unfoldable pub ends_with : String → String → Bool
ends_with [] suffix = str_eq [] suffix
ends_with (c ∷ s) suffix = str_eq (c ∷ s) suffix || ends_with s suffix

-- The parts between the characters of a number: one more than there are such characters.
abbrev pub on_split : Bool → Char → List String → List String
on_split true c parts = List.◌∷◌ [] parts
on_split false c List.[] = List.◌∷◌ (c ∷ []) List.[]
on_split false c (List.◌∷◌ part parts) = List.◌∷◌ (c ∷ part) parts

unfoldable pub split_at : ℕ → String → List String
split_at n [] = List.◌∷◌ [] List.[]
split_at n (c ∷ s) = on_split (code c == n) c (split_at n s)

ends_with_refl : (s : String) → ends_with s s ≡ true
unfolding ends_with
ends_with_refl [] = refl
ends_with_refl (c ∷ s) = rw (eq_refl (c ∷ s)) refl

pub ends_with-append : (p s : String) → ends_with (p ++ s) s ≡ true
unfolding ends_with
ends_with-append [] s = rw (nil-append s) (ends_with_refl s)
ends_with-append (d ∷ p) s = rw (cons-append d p s) (elim (Bool-cases (str_eq (d ∷ (p ++ s)) s)) [
  | inl t ↦ rw t refl
  | inr f ↦ rw f (ends_with-append p s)
])

pub ends_with→append : (s t : String) → ends_with s t ≡ true → (p : String) × (s ≡ p ++ t)
unfolding ends_with
ends_with→append [] t h = ("", (eq_iff [] t).0 h ∙ sym (nil-append t))
ends_with→append (c ∷ s) t h = elim (Bool-cases (str_eq (c ∷ s) t)) [
  | inl e ↦ ("", (eq_iff (c ∷ s) t).0 e ∙ sym (nil-append t))
  | inr f ↦
      let k : ends_with s t ≡ true = (rw f at h) in
      let r = ends_with→append s t k in (c ∷ r.0, ap (◌∷◌ c) r.1 ∙ sym (cons-append c r.0 t))
]

-- `trim_start_matches` of a character's number, and what stands behind the last such character.
unfoldable pub trim_start_matches : ℕ → String → String
trim_start_matches n [] = []
trim_start_matches n (c ∷ s) =
    let rest = trim_start_matches n s in if code c == n then rest else c ∷ s

abbrev pub last_of : String → List String → String
last_of s List.[] = s
last_of s (List.◌∷◌ t ts) = last_of t ts

unfoldable pub rsplit_first : ℕ → String → String
rsplit_first n s = last_of "" (split_at n s)

abbrev pub upper_char : Char → Char
upper_char c =
    if leb 97 (code c) && leb (code c) 122
    then char_at (code c - 97) "ABCDEFGHIJKLMNOPQRSTUVWXYZ" c
    else c

unfoldable pub to_ascii_uppercase : String → String
to_ascii_uppercase [] = []
to_ascii_uppercase (c ∷ s) = upper_char c ∷ to_ascii_uppercase s
