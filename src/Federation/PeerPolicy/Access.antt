-- ===== src/Federation/PeerPolicy/Access.antt =====
-- Which peers are let in.
use mls_ds.Prelude.{
  ℕ, ◌<◌, ◌^◌, max, String, ◌≡◌, refl, ap, ◌∙◌, Option, none, some, [], ◌∷◌, find, arith, str_eq,
  eq_refl, Bool-cases, inl, inr,
}
use mathlib.Core.Option
use mls_ds.Prelude.Results.{Result, ok, err}
use mls_ds.Sql.{World, query, NoFails, next}
use mls_ds.Federation.PeerPolicy.{
  PeerStatus, pending, allow, suspend, block, from_str, as_db_str, parse_status, PeerPolicy,
  FederationPeerRecord, FederationError, auth_failed, Peers, new_peer, upsert, seen, policy_of,
  admit, with_policy, enforce_inbound_peer_policy, upsert_peer_policy, limit_of, as_i32,
}
use mls_ds.Did.{canonical_did}

-- A status is read back from its text.
pub from_str-as_db_str : (s : PeerStatus) → from_str (as_db_str s) ≡ some s
unfolding from_str as_db_str
from_str-as_db_str pending = refl
from_str-as_db_str allow = refl
from_str-as_db_str suspend = refl
from_str-as_db_str block = refl

pub parse_status-as_db_str : (s : PeerStatus) → parse_status (as_db_str s) ≡ s
unfolding parse_status
parse_status-as_db_str s = rw (from_str-as_db_str s) refl

-- The row of a DID.
abbrev pub row_of : String → Peers → Option FederationPeerRecord
row_of did rs = find (λ r. str_eq r.ds_did did) rs

abbrev pub or_new :
    (FederationPeerRecord → FederationPeerRecord)
    → FederationPeerRecord
    → Option FederationPeerRecord
    → FederationPeerRecord
or_new f new none = new
or_new f new (some r) = f r

pub upsert-returns :
    (f : FederationPeerRecord → FederationPeerRecord) (new : FederationPeerRecord) (rs : Peers)
    → (upsert f new rs).0 ≡ or_new f new (row_of new.ds_did rs)
unfolding upsert find
upsert-returns f new [] = refl
upsert-returns f new (r ∷ rs) = elim (Bool-cases (str_eq r.ds_did new.ds_did)) [
  | inl t ↦ rw t refl
  | inr g ↦ rw g (upsert-returns f new rs)
]

pub row_of-upsert :
    (f : FederationPeerRecord → FederationPeerRecord) (new : FederationPeerRecord) (rs : Peers)
    → ((r : FederationPeerRecord) → (f r).ds_did ≡ r.ds_did)
    → row_of new.ds_did (upsert f new rs).1 ≡ some (upsert f new rs).0
unfolding upsert find
row_of-upsert f new [] same = rw (eq_refl new.ds_did) refl
row_of-upsert f new (r ∷ rs) same = elim (Bool-cases (str_eq r.ds_did new.ds_did)) [
  | inl t ↦ rw t (rw (same r, t) refl)
  | inr g ↦ rw g (rw g (row_of-upsert f new rs same))
]

-- The row that is found, or the one that is made for an unknown peer.
abbrev pub known_or_new : ℕ → String → Peers → FederationPeerRecord
known_or_new now did rs = or_new (seen now) (new_peer now did) (row_of did rs)

-- What a peer with this row is told.
abbrev pub verdict : String → FederationPeerRecord → PeerStatus → Result FederationError PeerPolicy
verdict did r allow = ok (policy_of r)
verdict did r pending = err (auth_failed pending did)
verdict did r suspend = err (auth_failed suspend did)
verdict did r block = err (auth_failed block did)

admit-verdict :
    (did : String) (r : FederationPeerRecord) (s : PeerStatus) (w : World Peers)
    → (admit did (policy_of r) s w).0 ≡ verdict did r s
admit-verdict did r pending w = refl
admit-verdict did r allow w = refl
admit-verdict did r suspend w = refl
admit-verdict did r block w = refl

-- Where no statement fails, a peer is let in exactly where its row's status says so, with the limit and
-- the score of the row; an unknown peer is pending.
pub enforce_inbound_peer_policy-known_or_new :
    (now : ℕ) (did : String) (w : World Peers)
    → NoFails w
    → let r = known_or_new now (canonical_did did) w.store in
      (enforce_inbound_peer_policy now did w).0
      ≡ verdict (canonical_did did) r (parse_status r.status)
unfolding enforce_inbound_peer_policy query policy_of parse_status
enforce_inbound_peer_policy-known_or_new now did w sound =
    rw (sound w.step, upsert-returns (seen now) (new_peer now (canonical_did did)) w.store)
      (admit-verdict (canonical_did did) (known_or_new now (canonical_did did) w.store)
        (parse_status (known_or_new now (canonical_did did) w.store).status)
        (next w (upsert (seen now) (new_peer now (canonical_did did)) w.store).1))

abbrev pub SmallLimit : Option ℕ → Type 0
SmallLimit none = Unit {0}
SmallLimit (some v) = v < 2 ^ 31

abbrev pub at_least_one : Option ℕ → Option ℕ
at_least_one none = none
at_least_one (some v) = some (max v 1)

-- What a peer is told that was given this status and this limit.
abbrev pub Told : String → PeerStatus → Option ℕ → Result FederationError PeerPolicy → Type 0
Told did allow limit r =
    (p : PeerPolicy) × (r ≡ ok p) × (p.max_requests_per_minute ≡ at_least_one limit)
Told did pending limit r = r ≡ err (auth_failed pending did)
Told did suspend limit r = r ≡ err (auth_failed suspend did)
Told did block limit r = r ≡ err (auth_failed block did)

limit_of-as_i32 : (v : ℕ) → v < 2 ^ 31 → limit_of (as_i32 v) ≡ max v 1
limit_of-as_i32 v h = ground arith

kept_limit :
    (limit : Option ℕ)
    → SmallLimit limit
    → Option.map limit_of (Option.map as_i32 limit) ≡ at_least_one limit
kept_limit none h = refl
kept_limit (some v) h = ap some (limit_of-as_i32 v h)

verdict-Told :
    (did : String) (r : FederationPeerRecord) (s : PeerStatus) (limit : Option ℕ)
    → SmallLimit limit
    → r.max_requests_per_minute ≡ Option.map as_i32 limit
    → Told did s limit (verdict did r s)
unfolding policy_of
verdict-Told did r pending limit h same = refl
verdict-Told did r allow limit h same =
    (policy_of r, refl, ap (Option.map limit_of) same ∙ kept_limit limit h)
verdict-Told did r suspend limit h same = refl
verdict-Told did r block limit h same = refl

upsert-is :
    (P : FederationPeerRecord → Type 0) (f : FederationPeerRecord → FederationPeerRecord)
    (new : FederationPeerRecord) (rs : Peers)
    → P new
    → ((r : FederationPeerRecord) → P (f r))
    → P (upsert f new rs).0
unfolding upsert
upsert-is P f new [] pn pf = pn
upsert-is P f new (r ∷ rs) pn pf = elim (Bool-cases (str_eq r.ds_did new.ds_did)) [
  | inl t ↦ rw t (pf r)
  | inr g ↦ rw g (upsert-is P f new rs pn pf)
]

upserted :
    (now : ℕ) (did : String) (status : PeerStatus) (limit : Option ℕ) (note : Option String)
    (w : World Peers)
    → NoFails w
    → let w' = (upsert_peer_policy now did status limit note w).1 in
      (r : FederationPeerRecord) × (row_of (canonical_did did) w'.store ≡ some r)
      × (r.status ≡ as_db_str status)
      × (r.max_requests_per_minute ≡ Option.map as_i32 limit)
      × NoFails w'
unfolding upsert_peer_policy query with_policy
upserted now did status limit note w sound =
    let f = with_policy now status limit note in
    let new = f (new_peer now (canonical_did did)) in
    let set =
      upsert-is
        (λ v. (v.status ≡ as_db_str status) × (v.max_requests_per_minute ≡ Option.map as_i32 limit))
        f new w.store (refl, refl) (λ r. (refl, refl)) in
    rw (sound w.step)
      ((upsert f new w.store).0, row_of-upsert f new w.store (λ r. refl), set.0, set.1, sound)

-- An admin's decision on a peer binds the next request of any device of it, where no statement fails:
-- who was allowed is let in, with the limit that was set or one a minute where that was zero, and
-- everyone else is refused with the status that was set. The limit is one that fits the column.
pub enforce_inbound_peer_policy-upsert_peer_policy :
    (now later : ℕ) (did from : String) (status : PeerStatus) (limit : Option ℕ)
    (note : Option String) (w : World Peers)
    → NoFails w
    → SmallLimit limit
    → canonical_did from ≡ canonical_did did
    → let w' = (upsert_peer_policy now did status limit note w).1 in
      Told (canonical_did did) status limit (enforce_inbound_peer_policy later from w').0
enforce_inbound_peer_policy-upsert_peer_policy now later did from status limit note w sound fits
      same =
    let w' = (upsert_peer_policy now did status limit note w).1 in
    let (r, there, set, limited, others) = upserted now did status limit note w sound in
    let v = enforce_inbound_peer_policy-known_or_new later from w' others in
    let k : known_or_new later (canonical_did from) w'.store ≡ seen later r =
      rw same (ap (or_new (seen later) (new_peer later (canonical_did did))) there) in
    let st : parse_status (seen later r).status ≡ status =
      ap parse_status set ∙ parse_status-as_db_str status in
    rw (v, k, st, same) (verdict-Told (canonical_did did) (seen later r) status limit fits limited)
