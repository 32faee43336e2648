-- ===== src/Auth/Token/Tests.antt =====
-- A token under a secp256k1 key.
use mls_ds.Prelude.{◌≡◌, refl, some, find}
use mls_ds.Prelude.Strings.{split_at, rsplit_first}
use mls_ds.Prelude.Results.{ok}
use mls_ds.Prelude.{bytes_eq}
use mls_ds.Wire.{as_bytes}
use mls_ds.Auth.Token.{verify_jwt, select_verification_method, extract_secp256k1_key}
use mls_ds.Auth.Token.Genuine.{IsGenuine, verify_jwt-IsGenuine}
use mls_ds.Auth.Token.Example.{jose, documents, claims}

accepted : verify_jwt jose documents (some "did:web:ds") 10 "h.p.k" ≡ ok claims
unfolding verify_jwt split_at rsplit_first find select_verification_method extract_secp256k1_key
    as_bytes bytes_eq
accepted = refl

verify_jwt-IsGenuine_example : IsGenuine jose documents (some "did:web:ds") 10 "h.p.k" claims
verify_jwt-IsGenuine_example =
    verify_jwt-IsGenuine jose documents (some "did:web:ds") 10 "h.p.k" claims accepted
