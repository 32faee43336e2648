-- ===== src/Federation/Endpoint.antt =====
-- federation/queue.rs: the endpoint that a `did:web` names.
use Prim.Native.Char.{Char, char, code}
use Prim.Native.String.{[], ◌∷◌, ◌++◌}
use mathlib.Core.Option
use mls_ds.Prelude.{String, Bool, true, ◌&&◌, ◌||◌, leb, Option, none, some, ◌==◌, if◌then◌else◌}

unfoldable pub strip_prefix : String → String → Option String
strip_prefix [] s = some s
strip_prefix (p ∷ ps) [] = none
strip_prefix (p ∷ ps) (c ∷ s) = if code p == code c then strip_prefix ps s else none

-- `replace(':', "/")`
unfoldable pub slashes : String → String
slashes [] = []
slashes (c ∷ s) = (if code c == b':' then char b'/' tt else c) ∷ slashes s

unfoldable pub did_web_to_endpoint : String → Option String
did_web_to_endpoint did =
    Option.map (λ web_path. "https://" ++ slashes web_path) (strip_prefix "did:web:" did)

-- The texts that `trim` leaves empty: those of `White_Space` characters.
abbrev pub is_white : Char → Bool
is_white c =
    let n = code c in
    (leb 9 n && leb n 13)
    || n == 32
    || n == 133
    || n == 160
    || n == 5760
    || (leb 8192 n && leb n 8202)
    || n == 8232
    || n == 8233
    || n == 8239
    || n == 8287
    || n == 12288

unfoldable pub is_blank : String → Bool
is_blank [] = true
is_blank (c ∷ s) = is_white c && is_blank s
