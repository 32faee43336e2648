-- ===== src/Federation/PeerPolicy/Verdict.antt =====
-- Which peers are let in, by the text in the status column.
use mls_ds.Prelude.{
  ℕ, String, ◌≡◌, ◌↔◌, refl, sym, ap, ◌∙◌, Option, none, some, str_eq, eq_iff, Bool-cases, inl, inr,
}
use mls_ds.Prelude.Results.{Result, ok}
use mls_ds.Sql.{World, NoFails, query, next}
use mls_ds.Did.{canonical_did}
use mls_ds.Federation.PeerPolicy.{
  PeerStatus, pending, allow, suspend, block, from_str, parse_status, PeerPolicy,
  FederationPeerRecord, FederationError, Peers, new_peer, upsert, seen, policy_of, admit,
  enforce_inbound_peer_policy,
}
use mls_ds.Federation.PeerPolicy.Access.{
  row_of, or_new, verdict, upsert-returns, row_of-upsert, enforce_inbound_peer_policy-known_or_new,
}

-- The text is read as `allow` where it is that, and nowhere else.
read_as_allow : (s : String) → parse_status s ≡ allow → s ≡ "allow"
unfolding parse_status from_str
read_as_allow s h = elim (Bool-cases (str_eq s "pending")) [
  | inl t ↦ let n : pending ≡ allow = (rw t at h) in absurd (cc)
  | inr f ↦ elim (Bool-cases (str_eq s "allow")) [
    | inl t ↦ (eq_iff s "allow").0 t
    | inr g ↦ elim (Bool-cases (str_eq s "suspend")) [
      | inl t ↦ let n : suspend ≡ allow = (rw (f, g, t) at h) in absurd (cc)
      | inr k ↦ elim (Bool-cases (str_eq s "block")) [
        | inl t ↦ let n : block ≡ allow = (rw (f, g, k, t) at h) in absurd (cc)
        | inr l ↦ let n : pending ≡ allow = (rw (f, g, k, l) at h) in absurd (cc)
      ]
    ]
  ]
]

allow_is_read : parse_status "allow" ≡ allow
unfolding parse_status from_str
allow_is_read = refl

pending_is_read : parse_status "pending" ≡ pending
unfolding parse_status from_str
pending_is_read = refl

admit_store :
    (did : String) (policy : PeerPolicy) (s : PeerStatus) (w : World Peers)
    → (admit did policy s w).1 ≡ w
admit_store did policy pending w = refl
admit_store did policy allow w = refl
admit_store did policy suspend w = refl
admit_store did policy block w = refl

enforced_store :
    (now : ℕ) (did : String) (w : World Peers)
    → NoFails w
    → (enforce_inbound_peer_policy now did w).1.store
      ≡ (upsert (seen now) (new_peer now (canonical_did did)) w.store).1
unfolding enforce_inbound_peer_policy query
enforced_store now did w sound =
    let u = upsert (seen now) (new_peer now (canonical_did did)) w.store in
    rw (sound w.step) (
      ap (λ (v : World Peers). v.store)
        (admit_store (canonical_did did) (policy_of u.0) (policy_of u.0).status (next w u.1)))

-- The peer has a row with this status.
abbrev pub HasStatus : String → String → Peers → Type 0
HasStatus status did rs =
    (r : FederationPeerRecord) × (row_of did rs ≡ some r) × (r.status ≡ status)

-- The row's status stays, and a peer that had no row is pending.
abbrev pub StatusStays : Option FederationPeerRecord → String → Peers → Type 0
StatusStays none did rs = HasStatus "pending" did rs
StatusStays (some r) did rs = HasStatus r.status did rs

abbrev pub IsLetIn : Result FederationError PeerPolicy → Type 0
IsLetIn r = (p : PeerPolicy) × (r ≡ ok p)

verdict_allows :
    (did : String) (r : FederationPeerRecord) (s : PeerStatus)
    → IsLetIn (verdict did r s) ↔ (s ≡ allow)
verdict_allows did r allow = (λ h. refl, λ e. (policy_of r, refl))
verdict_allows did r pending = (λ h. absurd (cc), λ e. absurd (cc))
verdict_allows did r suspend = (λ h. absurd (cc), λ e. absurd (cc))
verdict_allows did r block = (λ h. absurd (cc), λ e. absurd (cc))

status_of :
    (now : ℕ) (did : String) (rs : Peers) (o : Option FederationPeerRecord)
    → row_of did rs ≡ o
    → IsLetIn (
        verdict did
          (or_new (seen now) (new_peer now did) o)
          (parse_status (or_new (seen now) (new_peer now did) o).status))
      ↔ HasStatus "allow" did rs
status_of now did rs none e = (
  λ h.
      let a : pending ≡ allow =
        sym pending_is_read
        ∙ (verdict_allows did (new_peer now did) (parse_status "pending")).0 h in
      absurd (cc),
  λ h. let n : none ≡ some h.0 = sym e ∙ h.1 in absurd (cc),
)
status_of now did rs (some r) e = (
  λ h. (
    r,
    e,
    read_as_allow r.status ((verdict_allows did (seen now r) (parse_status r.status)).0 h),
  ),
  λ h.
      let k : some r ≡ some h.0 = sym e ∙ h.1 in
      let same : r ≡ h.0 = cc in
      (verdict_allows did (seen now r) (parse_status r.status)).1 (
        ap (λ (x : FederationPeerRecord). parse_status x.status) same
        ∙ ap parse_status h.2
        ∙ allow_is_read),
)

kept_status :
    (now : ℕ) (did : String) (rs : Peers)
    → StatusStays (row_of did rs) did (upsert (seen now) (new_peer now did) rs).1
kept_status now did rs = go (row_of did rs) (upsert-returns (seen now) (new_peer now did) rs)
  where
    go :
        (o : Option FederationPeerRecord)
        → (upsert (seen now) (new_peer now did) rs).0 ≡ or_new (seen now) (new_peer now did) o
        → StatusStays o did (upsert (seen now) (new_peer now did) rs).1
    go none e = (
      (upsert (seen now) (new_peer now did) rs).0,
      row_of-upsert (seen now) (new_peer now did) rs (λ r. refl),
      ap (λ (x : FederationPeerRecord). x.status) e,
    )
    go (some r) e = (
      (upsert (seen now) (new_peer now did) rs).0,
      row_of-upsert (seen now) (new_peer now did) rs (λ r. refl),
      ap (λ (x : FederationPeerRecord). x.status) e,
    )

-- Where no statement fails, a peer is let in exactly where its canonical DID has a row with the status
-- `allow`; the row's status stays as it was, and a peer without a row gets one with the status
-- `pending`.
pub enforce_inbound_peer_policy-HasStatus :
    (now : ℕ) (did : String) (w : World Peers)
    → NoFails w
    → let r = enforce_inbound_peer_policy now did w in
      (IsLetIn r.0 ↔ HasStatus "allow" (canonical_did did) w.store)
      × StatusStays (row_of (canonical_did did) w.store) (canonical_did did) r.1.store
enforce_inbound_peer_policy-HasStatus now did w sound = (
  rw (enforce_inbound_peer_policy-known_or_new now did w sound)
      (status_of now (canonical_did did) w.store (row_of (canonical_did did) w.store) refl),
  rw (enforced_store now did w sound) (kept_status now (canonical_did did) w.store),
)
