-- ===== src/Federation/PeerPolicy.antt =====
-- federation/peer_policy.rs: what this DS thinks of its peers. The table federation_peers is a list with
-- one row for a DID; a trust score is an integer, a time a number of microseconds. A refusal's text
-- stands as the status that it names.
pub mod Trust
pub mod Access
pub mod Verdict
mod Tests
use mls_ds.Prelude.{
  ℕ, suc, ◌+◌, ◌-◌, ◌^◌, min, max, String, Bool, true, false, not, Option, none, some, List, [],
  ◌∷◌, where_, length, take, str_eq, ltb, leb, if◌then◌else◌,
}
use mls_ds.Prelude.Int.{ℤ, pos, negsuc, ◌+ℤ◌, leb_ℤ}
use mls_ds.Sql.{World, Exec, query, pure, throw, ◌>>=◌}
use mls_ds.Prelude.Results.{Result, ok, err}
use mls_ds.Did.{canonical_did}
use mathlib.Core.Option

pub data PeerStatus : Type 0 where
  pending allow suspend block : PeerStatus

unfoldable pub from_str : String → Option PeerStatus
from_str status =
    if str_eq status "pending"
    then some pending
    else if str_eq status "allow"
    then some allow
    else if str_eq status "suspend"
    then some suspend
    else if str_eq status "block"
    then some block
    else none

unfoldable pub as_db_str : PeerStatus → String
as_db_str pending = "pending"
as_db_str allow = "allow"
as_db_str suspend = "suspend"
as_db_str block = "block"

abbrev unwrap_or : PeerStatus → Option PeerStatus → PeerStatus
unwrap_or d none = d
unwrap_or d (some s) = s

unfoldable pub parse_status : String → PeerStatus
unfolding from_str
parse_status status = unwrap_or pending (from_str status)

pub record PeerPolicy : Type 0 where
  pub status : PeerStatus
  pub max_requests_per_minute : Option ℕ
  pub trust_score : ℤ

pub record FederationPeerRecord : Type 0 where
  pub ds_did : String
  pub status : String
  pub trust_score : ℤ
  pub max_requests_per_minute : Option ℤ
  pub note : Option String
  pub invalid_token_count : ℕ
  pub rejected_request_count : ℕ
  pub successful_request_count : ℕ
  pub last_seen_at : Option ℕ
  pub created_at : ℕ
  pub updated_at : ℕ

pub data FederationError : Type 0 where
  database : FederationError
  auth_failed : PeerStatus → String → FederationError

abbrev pub Peers : Type 0
Peers = List FederationPeerRecord

-- A row that an INSERT of `ds_did` makes, with the defaults of the schema.
abbrev pub new_peer : ℕ → String → FederationPeerRecord
new_peer now ds_did = record {
  ds_did = ds_did;
  status = "pending";
  trust_score = pos 0;
  max_requests_per_minute = none;
  note = none;
  invalid_token_count = 0;
  rejected_request_count = 0;
  successful_request_count = 0;
  last_seen_at = some now;
  created_at = now;
  updated_at = now;
}

-- INSERT … ON CONFLICT (ds_did) DO UPDATE … RETURNING the row
unfoldable pub upsert :
    (FederationPeerRecord → FederationPeerRecord)
    → FederationPeerRecord
    → Peers
    → FederationPeerRecord × Peers
upsert f new [] = (new, new ∷ [])
upsert f new (r ∷ rs) =
    let rest = upsert f new rs in
    if str_eq r.ds_did new.ds_did then (f r, f r ∷ rs) else (rest.0, r ∷ rest.1)

-- `v.max(1) as u32` on an `i32`
abbrev pub limit_of : ℤ → ℕ
limit_of (pos n) = max n 1
limit_of (negsuc n) = 1

abbrev pub policy_of : FederationPeerRecord → PeerPolicy
unfolding parse_status
policy_of r = record {
  status = parse_status r.status;
  max_requests_per_minute = Option.map limit_of r.max_requests_per_minute;
  trust_score = r.trust_score;
}

abbrev pub admit : String → PeerPolicy → PeerStatus → Exec Peers FederationError PeerPolicy
admit ds_did policy allow = pure policy
admit ds_did policy pending = throw (auth_failed pending ds_did)
admit ds_did policy suspend = throw (auth_failed suspend ds_did)
admit ds_did policy block = throw (auth_failed block ds_did)

abbrev pub seen : ℕ → FederationPeerRecord → FederationPeerRecord
seen now r = record r { last_seen_at = some now; updated_at = now }

unfoldable pub enforce_inbound_peer_policy : ℕ → String → Exec Peers FederationError PeerPolicy
enforce_inbound_peer_policy now ds_did = do
  row ← query database (λ s. some (upsert (seen now) (new_peer now (canonical_did ds_did)) s))
  admit (canonical_did ds_did) (policy_of row) (policy_of row).status

abbrev pub least : ℤ → ℤ → ℤ
least a b = if leb_ℤ a b then a else b

abbrev pub greatest : ℤ → ℤ → ℤ
greatest a b = if leb_ℤ a b then b else a

abbrev pub praised : ℕ → FederationPeerRecord → FederationPeerRecord
praised now r = record (seen now r) {
  successful_request_count = suc r.successful_request_count;
  trust_score = least (r.trust_score +ℤ pos 1) (pos 1000);
}

abbrev pub blamed : ℕ → FederationPeerRecord → FederationPeerRecord
blamed now r = record (seen now r) {
  rejected_request_count = suc r.rejected_request_count;
  trust_score = greatest (r.trust_score +ℤ negsuc 4) (negsuc 999);
}

abbrev pub distrusted : ℕ → FederationPeerRecord → FederationPeerRecord
distrusted now r = record (seen now r) {
  invalid_token_count = suc r.invalid_token_count;
  trust_score = greatest (r.trust_score +ℤ negsuc 9) (negsuc 999);
}

-- One statement whose error is discarded.
abbrev pub discard : {A : Type 0} → Exec Peers FederationError A → World Peers → World Peers
discard m w = (m w).1

unfoldable pub record_success : ℕ → String → World Peers → World Peers
record_success now ds_did = discard (
    query database (λ s. some (
      upsert (praised now)
        (record (new_peer now (canonical_did ds_did)) {
          successful_request_count = 1;
          trust_score = pos 1;
        })
        s)))

unfoldable pub record_rejected : ℕ → String → World Peers → World Peers
record_rejected now ds_did = discard (
    query database (λ s. some (
      upsert (blamed now)
        (record (new_peer now (canonical_did ds_did)) {
          rejected_request_count = 1;
          trust_score = negsuc 4;
        })
        s)))

unfoldable pub record_invalid_token : ℕ → String → World Peers → World Peers
record_invalid_token now ds_did = discard (
    query database (λ s. some (
      upsert (distrusted now)
        (record (new_peer now (canonical_did ds_did)) {
          invalid_token_count = 1;
          trust_score = negsuc 9;
        })
        s)))

-- `ORDER BY updated_at DESC`; rows with one time come in an order that the database does not promise.
unfoldable pub insert_latest : FederationPeerRecord → Peers → Peers
insert_latest r [] = r ∷ []
insert_latest r (x ∷ xs) =
    let rest = insert_latest r xs in if leb r.updated_at x.updated_at then x ∷ rest else r ∷ x ∷ xs

unfoldable pub order_latest : Peers → Peers
order_latest [] = []
order_latest (r ∷ rs) = insert_latest r (order_latest rs)

abbrev pub has_status : Option PeerStatus → FederationPeerRecord → Bool
unfolding as_db_str
has_status none r = true
has_status (some s) r = str_eq r.status (as_db_str s)

unfoldable pub list_peer_policies : Option PeerStatus → ℕ → Exec Peers FederationError Peers
list_peer_policies status_filter limit = query database (λ s.
    some (take (min (max limit 1) 500) (order_latest (where_ (has_status status_filter) s)), s))

-- `v.max(1) as i32` on a `u32`
abbrev pub as_i32 : ℕ → ℤ
as_i32 v = if ltb (max v 1) (2 ^ 31) then pos (max v 1) else negsuc (2 ^ 32 - max v 1 - 1)

abbrev pub with_policy :
    ℕ → PeerStatus → Option ℕ → Option String → FederationPeerRecord → FederationPeerRecord
unfolding as_db_str
with_policy now status max_requests_per_minute note r = record r {
  status = as_db_str status;
  max_requests_per_minute = Option.map as_i32 max_requests_per_minute;
  note = note;
  updated_at = now;
}

unfoldable pub upsert_peer_policy :
    ℕ
    → String
    → PeerStatus
    → Option ℕ
    → Option String
    → Exec Peers FederationError FederationPeerRecord
upsert_peer_policy now ds_did status max_requests_per_minute note =
    let f = with_policy now status max_requests_per_minute note in
    query database (λ s. some (upsert f (f (new_peer now (canonical_did ds_did))) s))

unfoldable pub delete_peer_policy : String → Exec Peers FederationError Bool
delete_peer_policy ds_did = query database (λ s. some (
  ltb 0 (length (where_ (λ r. str_eq r.ds_did (canonical_did ds_did)) s)),
  where_ (λ r. not (str_eq r.ds_did (canonical_did ds_did))) s,
))
