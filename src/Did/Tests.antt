-- ===== src/Did/Tests.antt =====
-- The documented examples of device_utils.rs and identity.rs.
use mls_ds.Prelude.{◌≡◌, refl}
use mls_ds.Prelude.Results.{ok, err}
use mls_ds.Did.{canonical_did, construct_device_did, parse_device_did}
use mls_ds.Did.Laws.{canonical_did_idem, parse_device_did-ok}

parses : parse_device_did "did:plc:josh#abc-123" ≡ ok ("did:plc:josh", "abc-123")
unfolding parse_device_did
parses = refl

refuses : parse_device_did "#device" ≡ err "Invalid device DID format: #device"
unfolding parse_device_did
refuses = refl

strips : canonical_did "did:web:example.com#service" ≡ "did:web:example.com"
unfolding canonical_did
strips = refl

canonical_did_idem_example : canonical_did (canonical_did "did:a#1") ≡ canonical_did "did:a#1"
canonical_did_idem_example = canonical_did_idem "did:a#1"

parse_device_did-ok_example :
    (construct_device_did "did:plc:josh" "abc-123" ≡ "did:plc:josh#abc-123")
    × (canonical_did "did:plc:josh#abc-123" ≡ "did:plc:josh")
parse_device_did-ok_example =
    parse_device_did-ok "did:plc:josh#abc-123" "did:plc:josh" "abc-123" parses
