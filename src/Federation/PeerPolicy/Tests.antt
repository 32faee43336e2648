-- ===== src/Federation/PeerPolicy/Tests.antt =====
-- A peer that was allowed, and its next requests.
use mls_ds.Prelude.{◌↔◌, find, ◌≡◌, refl, false, none, some, [], ◌∷◌, arith, All}
use mls_ds.Prelude.Int.{pos}
use mls_ds.Sql.{World}
use mls_ds.Did.{canonical_did}
use mls_ds.Federation.PeerPolicy.{
  allow, Peers, new_peer, enforce_inbound_peer_policy, upsert_peer_policy,
}
use mls_ds.Federation.PeerPolicy.Trust.{
  IsInRange, succeeded, was_invalid, apply_all, apply_all-IsInRange,
}
use mls_ds.Federation.PeerPolicy.Verdict.{
  IsLetIn, HasStatus, StatusStays, enforce_inbound_peer_policy-HasStatus,
}
use mls_ds.Federation.PeerPolicy.Access.{
  Told, row_of, enforce_inbound_peer_policy-upsert_peer_policy,
}

abbrev world : World Peers
world = record {
  store = record (new_peer 0 "did:web:b") { trust_score = pos 999 } ∷ [];
  fails = λ _. false;
  step = 0;
  fresh = λ _. "id";
  drawn = 0;
}

apply_all-IsInRange_example :
    All IsInRange
      (apply_all world (
        (1, succeeded "did:web:b")
        ∷ (2, succeeded "did:web:b#x")
        ∷ (3, was_invalid "did:web:c")
        ∷ [])).store
apply_all-IsInRange_example =
    apply_all-IsInRange
      ((1, succeeded "did:web:b")
        ∷ (2, succeeded "did:web:b#x")
        ∷ (3, was_invalid "did:web:c")
        ∷ [])
      world ((omega arith, omega arith), tt)

-- A peer that is allowed, under another of its identifiers.
abbrev allowing : World Peers
allowing = record world { store = record (new_peer 0 "did:web:b") { status = "allow" } ∷ [] }

lets_in : IsLetIn (enforce_inbound_peer_policy 4 "did:web:b#x" allowing).0
unfolding canonical_did find
lets_in =
    (enforce_inbound_peer_policy-HasStatus 4 "did:web:b#x" allowing (λ n. refl)).0.1
      (record (new_peer 0 "did:web:b") { status = "allow" }, refl, refl)

enforce_inbound_peer_policy-HasStatus_example :
    let r = enforce_inbound_peer_policy 4 "did:web:b#x" allowing in
    (IsLetIn r.0 ↔ HasStatus "allow" (canonical_did "did:web:b#x") allowing.store)
    × StatusStays
        (row_of (canonical_did "did:web:b#x") allowing.store)
        (canonical_did "did:web:b#x")
        r.1.store
enforce_inbound_peer_policy-HasStatus_example =
    enforce_inbound_peer_policy-HasStatus 4 "did:web:b#x" allowing (λ n. refl)

same_peer : canonical_did "did:web:b#x" ≡ canonical_did "did:web:b"
unfolding canonical_did
same_peer = refl

enforce_inbound_peer_policy-upsert_peer_policy_example :
    let w' = (upsert_peer_policy 4 "did:web:b" allow (some 60) none world).1 in
    Told
      (canonical_did "did:web:b")
      allow
      (some 60)
      (enforce_inbound_peer_policy 5 "did:web:b#x" w').0
enforce_inbound_peer_policy-upsert_peer_policy_example =
    enforce_inbound_peer_policy-upsert_peer_policy 4 5 "did:web:b" "did:web:b#x" allow (some 60)
      none world (λ n. refl) (omega arith) same_peer
