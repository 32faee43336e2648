-- ===== src/Did.antt =====
-- server/src/identity.rs and server/src/device_utils.rs: DIDs, their fragments and device DIDs.
-- A Rust `&str` is a native `String`, a list of characters; `#` is one character.
pub mod Laws
mod Tests
use Prim.Native.Char.{code}
use Prim.Native.String.{[], ◌∷◌, ◌++◌}
use mathlib.Core.Option
use mls_ds.Prelude.{
  String, Bool, true, false, ◌||◌, Option, none, some, ◌==◌, if◌then◌else◌, str_eq,
}
use mls_ds.Prelude.Results.{Result, ok, err}

-- `value.split('#').next()`: what stands before the first `#`, or the whole text.
unfoldable pub canonical_did : String → String
canonical_did [] = []
canonical_did (c ∷ s) = let rest = canonical_did s in if code c == b'#' then [] else c ∷ rest

unfoldable pub dids_equivalent : String → String → Bool
dids_equivalent left right = str_eq (canonical_did left) (canonical_did right)

-- `split_once('#')` of the standard library.
unfoldable pub split_once : String → Option (String × String)
split_once [] = none
split_once (c ∷ s) =
    let rest = split_once s in
    if code c == b'#' then some ([], s) else Option.map (λ p. (c ∷ p.0, p.1)) rest

unfoldable pub is_empty : String → Bool
is_empty [] = true
is_empty (c ∷ s) = false

unfoldable pub parse_device_did : String → Result String (String × String)
unfolding split_once is_empty
parse_device_did device_did = elim (split_once device_did) [
  | some (user_part, device_part) ↦
      if is_empty user_part || is_empty device_part
      then err ("Invalid device DID format: " ++ device_did)
      else ok (user_part, device_part)
  | none ↦ ok (device_did, "")
]

unfoldable pub construct_device_did : String → String → String
unfolding is_empty
construct_device_did user_did device_id =
    if is_empty device_id then user_did else user_did ++ ("#" ++ device_id)
