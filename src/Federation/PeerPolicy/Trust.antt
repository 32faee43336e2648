-- ===== src/Federation/PeerPolicy/Trust.antt =====
-- The bounds of the trust scores.
use mls_ds.Prelude.{
  where_-All, ℕ, String, ◌≡◌, refl, Option, some, List, [], ◌∷◌, All, arith, str_eq, where_, length,
  ltb, Bool-cases, inl, inr, not,
}
use mls_ds.Prelude.Int.{ℤ, pos, negsuc, ◌+ℤ◌, ◌≤ℤ◌}
use mls_ds.Prelude.Results.{Result, ok, err}
use mls_ds.Sql.{World, query, continue}
use mls_ds.Federation.PeerPolicy.{
  PeerStatus, pending, allow, suspend, block, admit, policy_of, FederationPeerRecord,
  FederationError, database, Peers, new_peer, upsert, seen, praised, blamed, distrusted,
  with_policy, enforce_inbound_peer_policy, record_success, record_rejected, record_invalid_token,
  upsert_peer_policy, delete_peer_policy, least, greatest,
}
use mls_ds.Did.{canonical_did}

-- From -1000 to 1000.
abbrev pub IsInRange : FederationPeerRecord → Type 0
IsInRange r = (negsuc 999 ≤ℤ r.trust_score) × (r.trust_score ≤ℤ pos 1000)

up :
    (n : ℕ) (t : ℤ)
    → (negsuc 999 ≤ℤ t) × (t ≤ℤ pos 1000)
    → let v = least (t +ℤ pos n) (pos 1000) in (negsuc 999 ≤ℤ v) × (v ≤ℤ pos 1000)
unfolding ◌+ℤ◌
up n (pos t) h = (ground arith, ground arith)
up n (negsuc t) h = (ground arith, ground arith)

down :
    (n : ℕ) (t : ℤ)
    → (negsuc 999 ≤ℤ t) × (t ≤ℤ pos 1000)
    → let v = greatest (t +ℤ negsuc n) (negsuc 999) in (negsuc 999 ≤ℤ v) × (v ≤ℤ pos 1000)
unfolding ◌+ℤ◌
down n (pos t) h = (ground arith, ground arith)
down n (negsuc t) h = (ground arith, ground arith)

upsert-All :
    (P : FederationPeerRecord → Type 0) (f : FederationPeerRecord → FederationPeerRecord)
    (new : FederationPeerRecord) (rs : Peers)
    → P new
    → ((r : FederationPeerRecord) → P r → P (f r))
    → All P rs
    → All P (upsert f new rs).1
unfolding upsert
upsert-All P f new [] pn pf h = (pn, tt)
upsert-All P f new (r ∷ rs) pn pf (h, hs) = elim (Bool-cases (str_eq r.ds_did new.ds_did)) [
  | inl t ↦ rw t (pf r h, hs)
  | inr g ↦ rw g (h, upsert-All P f new rs pn pf hs)
]

-- What the other parts of the service ask of this one.
pub data PeerEvent : Type 0 where
  enforced succeeded was_rejected was_invalid : String → PeerEvent
  put : String → PeerStatus → Option ℕ → Option String → PeerEvent
  deleted : String → PeerEvent

unfoldable pub apply : World Peers → ℕ → PeerEvent → World Peers
apply w now (enforced did) = (enforce_inbound_peer_policy now did w).1
apply w now (succeeded did) = record_success now did w
apply w now (was_rejected did) = record_rejected now did w
apply w now (was_invalid did) = record_invalid_token now did w
apply w now (put did status limit note) = (upsert_peer_policy now did status limit note w).1
apply w now (deleted did) = (delete_peer_policy did w).1

unfoldable pub apply_all : World Peers → List (ℕ × PeerEvent) → World Peers
apply_all w [] = w
apply_all w ((now, e) ∷ es) = apply_all (apply w now e) es

-- A statement keeps what it does not break, where it fails too.
query-All :
    {A : Type 0} (P : FederationPeerRecord → Type 0) (g : Peers → A × Peers) (w : World Peers)
    → ((rs : Peers) → All P rs → All P (g rs).1)
    → All P w.store
    → All P (query database (λ s. some (g s)) w).1.store
unfolding query
query-All P g w keep h = elim (Bool-cases (w.fails w.step)) [
  | inl t ↦ rw t h
  | inr f ↦ rw f (keep w.store h)
]

enforce-store :
    (now : ℕ) (did : String) (w : World Peers)
    → (enforce_inbound_peer_policy now did w).1
      ≡ (query database (λ s. some (upsert (seen now) (new_peer now (canonical_did did)) s)) w).1
unfolding enforce_inbound_peer_policy
enforce-store now did w =
    admitted (query database (λ s. some (upsert (seen now) (new_peer now (canonical_did did)) s)) w)
  where
    on_status :
        (r : FederationPeerRecord) (s : PeerStatus) (v : World Peers)
        → (admit (canonical_did did) (policy_of r) s v).1 ≡ v
    on_status r pending v = refl
    on_status r allow v = refl
    on_status r suspend v = refl
    on_status r block v = refl

    admitted :
        (q : Result FederationError FederationPeerRecord × World Peers)
        → (continue q.0
            (λ row. admit (canonical_did did) (policy_of row) (policy_of row).status)
            q.1).1
          ≡ q.1
    admitted (ok r, v) = on_status r (policy_of r).status v
    admitted (err x, v) = refl

apply-IsInRange :
    (now : ℕ) (e : PeerEvent) (w : World Peers)
    → All IsInRange w.store
    → All IsInRange (apply w now e).store
unfolding apply record_success record_rejected record_invalid_token upsert_peer_policy
    delete_peer_policy with_policy
apply-IsInRange now (enforced did) w h = rw (enforce-store now did w) (
    query-All IsInRange (upsert (seen now) (new_peer now (canonical_did did))) w
      (λ rs. upsert-All IsInRange (seen now) _ rs (omega arith, omega arith) (λ r k. k)) h)
apply-IsInRange now (succeeded did) w h =
    query-All IsInRange (upsert (praised now) _) w
      (λ rs.
        upsert-All IsInRange (praised now) _ rs (omega arith, omega arith)
          (λ r k. up 1 r.trust_score k))
      h
apply-IsInRange now (was_rejected did) w h =
    query-All IsInRange (upsert (blamed now) _) w
      (λ rs.
        upsert-All IsInRange (blamed now) _ rs (omega arith, omega arith)
          (λ r k. down 4 r.trust_score k))
      h
apply-IsInRange now (was_invalid did) w h =
    query-All IsInRange (upsert (distrusted now) _) w
      (λ rs.
        upsert-All IsInRange (distrusted now) _ rs (omega arith, omega arith)
          (λ r k. down 9 r.trust_score k))
      h
apply-IsInRange now (put did status limit note) w h =
    let f = with_policy now status limit note in
    query-All IsInRange (upsert f (f (new_peer now (canonical_did did)))) w
      (λ rs. upsert-All IsInRange f _ rs (omega arith, omega arith) (λ r k. k)) h
apply-IsInRange now (deleted did) w h =
    query-All IsInRange
      (λ s. (
        ltb 0 (length (where_ (λ r. str_eq r.ds_did (canonical_did did)) s)),
        where_ (λ r. not (str_eq r.ds_did (canonical_did did))) s,
      ))
      w (λ rs. where_-All IsInRange (λ r. not (str_eq r.ds_did (canonical_did did))) rs) h

-- Whatever is asked in whatever order, and whatever statements fail, trust scores that lie between
-- -1000 and 1000 stay there.
pub apply_all-IsInRange :
    (es : List (ℕ × PeerEvent)) (w : World Peers)
    → All IsInRange w.store
    → All IsInRange (apply_all w es).store
unfolding apply_all
apply_all-IsInRange [] w h = h
apply_all-IsInRange ((now, e) ∷ es) w h =
    apply_all-IsInRange es (apply w now e) (apply-IsInRange now e w h)
