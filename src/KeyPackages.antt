-- ===== src/KeyPackages.antt =====
-- server/src/db.rs: the statements on the table key_packages. `validate` is what OpenMLS and the time
-- limit say of the bytes of a package. A time is a number of microseconds.
pub mod Kept
pub mod Spent
mod Tests
use mls_ds.Prelude.{
  ℕ, suc, ◌+◌, ◌-◌, ◌*◌, String, Bool, true, false, not, ◌&&◌, ◌||◌, Option, none, some, List, [],
  ◌∷◌, ◌++◌, where_, exists, length, map, str_eq, ltb, leb, ◌==◌, if◌then◌else◌, bytes_eq,
}
use mls_ds.Prelude.Results.{Result, ok, err}
use mls_ds.Sql.{World, Exec, query, pure, throw, new_id, ◌>>=◌, ◌>>◌}

-- The contexts that db.rs gives to its errors.
pub data DbError : Type 0 where
  database : DbError
  validation_error validation_timed_out : DbError
  not_bare_did : String → DbError

pub record KeyPackageRow : Type 0 where
  pub id : String
  pub owner_did : String
  pub device_id : Option String
  pub credential_did : String
  pub cipher_suite : String
  pub key_package : List ℕ
  pub key_package_hash : String
  pub created_at : ℕ
  pub expires_at : ℕ
  pub consumed_at : Option ℕ
  pub reserved_at : Option ℕ
  pub reserved_by_convo : Option String

pub record UserRow : Type 0 where
  pub did : String
  pub created_at : ℕ
  pub last_seen_at : ℕ

pub record Tables : Type 0 where
  pub users : List UserRow
  pub key_packages : List KeyPackageRow

abbrev pub Job : Type 0 → Type 0
Job A = Exec Tables DbError A

-- The hash reference of a valid package and the identity of its credential.
pub data Validation : Type 0 where
  valid : String → String → Validation
  invalid timed_out : Validation

abbrev pub is_none : Option ℕ → Bool
is_none none = true
is_none (some t) = false

-- INSERT INTO users … ON CONFLICT (did) DO UPDATE SET last_seen_at
unfoldable pub upsert_user : String → ℕ → List UserRow → List UserRow
upsert_user did now [] = record { did = did; created_at = now; last_seen_at = now } ∷ []
upsert_user did now (u ∷ us) =
    let rest = upsert_user did now us in
    if str_eq u.did did then record u { last_seen_at = now } ∷ us else u ∷ rest

-- The rows of an UPDATE with its SET for those that pass its WHERE.
unfoldable pub update :
    (KeyPackageRow → Bool)
    → (KeyPackageRow → KeyPackageRow)
    → List KeyPackageRow
    → List KeyPackageRow
update p f [] = []
update p f (r ∷ rs) = let rest = update p f rs in if p r then f r ∷ rest else r ∷ rest

abbrev pub set_rows : Tables → List KeyPackageRow → Tables
set_rows s rs = record s { key_packages = rs }

-- The primary key; the owner is in users by then.
abbrev pub insert_row : KeyPackageRow → Tables → Option (KeyPackageRow × Tables)
insert_row new s =
    if exists (λ r. str_eq r.id new.id) s.key_packages
    then none
    else some (new, set_rows s (new ∷ s.key_packages))

abbrev pub checked : String → Validation → Job (String × String)
checked did invalid = throw validation_error
checked did timed_out = throw validation_timed_out
checked did (valid hash identity) =
    if not (str_eq identity did) then throw (not_bare_did identity) else pure (hash, identity)

unfoldable pub store_key_package_with_device :
    (List ℕ → Validation) → ℕ → String → String → List ℕ → ℕ → Option String → Job KeyPackageRow
store_key_package_with_device validate now did cipher_suite key_data expires_at device_id = do
  id ← new_id
  query database (λ s. some (tt, record s { users = upsert_user did now s.users }))
  verified ← checked did (validate key_data)
  query database (
      insert_row (record {
        id = id;
        owner_did = did;
        device_id = device_id;
        credential_did = verified.1;
        cipher_suite = cipher_suite;
        key_package = key_data;
        key_package_hash = verified.0;
        created_at = now;
        expires_at = expires_at;
        consumed_at = none;
        reserved_at = none;
        reserved_by_convo = none;
      }))

-- `ORDER BY created_at ASC LIMIT 1`
abbrev pub older : KeyPackageRow → Option KeyPackageRow → KeyPackageRow
older r none = r
older r (some x) = if ltb x.created_at r.created_at then x else r

unfoldable pub oldest : List KeyPackageRow → Option KeyPackageRow
oldest [] = none
oldest (r ∷ rs) = some (older r (oldest rs))

abbrev pub is_available : ℕ → String → String → KeyPackageRow → Bool
is_available now did cipher_suite r =
    str_eq r.owner_did did
    && str_eq r.cipher_suite cipher_suite
    && is_none r.consumed_at
    && ltb now r.expires_at

unfoldable pub get_key_package : ℕ → String → String → Job (Option KeyPackageRow)
get_key_package now did cipher_suite =
    query database
      (λ s. some (oldest (where_ (is_available now did cipher_suite) s.key_packages), s))

abbrev pub consume : ℕ → KeyPackageRow → KeyPackageRow
consume now r = record r { consumed_at = some now }

abbrev pub is_unconsumed_data : String → String → List ℕ → KeyPackageRow → Bool
is_unconsumed_data did cipher_suite key_data r =
    str_eq r.owner_did did
    && str_eq r.cipher_suite cipher_suite
    && bytes_eq r.key_package key_data
    && is_none r.consumed_at

unfoldable pub consume_key_package : ℕ → String → String → List ℕ → Job (Unit {0})
consume_key_package now did cipher_suite key_data = query database (λ s. some (
  tt,
  set_rows s (update (is_unconsumed_data did cipher_suite key_data) (consume now) s.key_packages),
))

abbrev pub is_unconsumed : String → String → KeyPackageRow → Bool
is_unconsumed did hash r =
    str_eq r.owner_did did && str_eq r.key_package_hash hash && is_none r.consumed_at

-- The answer is `rows_affected() > 0`.
unfoldable pub mark_key_package_consumed : ℕ → String → String → Job Bool
mark_key_package_consumed now did hash = query database (λ s. some (
  exists (is_unconsumed did hash) s.key_packages,
  set_rows s (update (is_unconsumed did hash) (consume now) s.key_packages),
))

-- `reserved_at IS NULL OR reserved_at < now - 5 minutes`
abbrev pub is_unreserved : ℕ → Option ℕ → Bool
is_unreserved now none = true
is_unreserved now (some t) = ltb (t + 5 * 60 * 1000000) now

abbrev pub is_reservable : ℕ → String → String → KeyPackageRow → Bool
is_reservable now did hash r = is_unconsumed did hash r && is_unreserved now r.reserved_at

abbrev pub reserve : ℕ → String → KeyPackageRow → KeyPackageRow
reserve now convo_id r = record r { reserved_at = some now; reserved_by_convo = some convo_id }

unfoldable pub reserve_key_package : ℕ → String → String → String → Job Bool
reserve_key_package now owner_did hash convo_id = query database (λ s. some (
  exists (is_reservable now owner_did hash) s.key_packages,
  set_rows s (update (is_reservable now owner_did hash) (reserve now convo_id) s.key_packages),
))

-- A DELETE of the rows that a test does not keep, with `rows_affected()`.
abbrev pub delete_unless : (KeyPackageRow → Bool) → Job ℕ
delete_unless keep = query database (λ s. some (
  length s.key_packages - length (where_ keep s.key_packages),
  set_rows s (where_ keep s.key_packages),
))

unfoldable pub delete_expired_key_packages : ℕ → Job ℕ
delete_expired_key_packages now = delete_unless (λ r. leb now r.expires_at)

abbrev pub consumed_before : ℕ → Option ℕ → Bool
consumed_before cutoff none = false
consumed_before cutoff (some t) = ltb t cutoff

unfoldable pub delete_consumed_key_packages : ℕ → ℕ → Job ℕ
delete_consumed_key_packages now hours_old =
    delete_unless (λ r. not (consumed_before (now - hours_old * 3600 * 1000000) r.consumed_at))

unfoldable pub delete_old_unconsumed_key_packages : ℕ → ℕ → Job ℕ
delete_old_unconsumed_key_packages now days_old =
    delete_unless
      (λ r. not (is_none r.consumed_at && ltb r.created_at (now - days_old * 86400 * 1000000)))

-- ROW_NUMBER() over the unconsumed rows of the owner, the newest first; rows of one time come in the
-- order of the table, which the database does not promise.
abbrev pub counts_before : KeyPackageRow → KeyPackageRow → Bool
counts_before r x =
    str_eq x.owner_did r.owner_did && is_none x.consumed_at && ltb r.created_at x.created_at

abbrev pub counts_with : KeyPackageRow → KeyPackageRow → Bool
counts_with r x =
    str_eq x.owner_did r.owner_did && is_none x.consumed_at && x.created_at == r.created_at

abbrev pub rank : List KeyPackageRow → List KeyPackageRow → KeyPackageRow → ℕ
rank all earlier r =
    suc (length (where_ (counts_before r) all) + length (where_ (counts_with r) earlier))

unfoldable pub keep_newest :
    ℕ → List KeyPackageRow → List KeyPackageRow → List KeyPackageRow → List KeyPackageRow
keep_newest limit all earlier [] = []
keep_newest limit all earlier (r ∷ rs) =
    let rest = keep_newest limit all (earlier ++ (r ∷ [])) rs in
    if is_none r.consumed_at && ltb limit (rank all earlier r) then rest else r ∷ rest

unfoldable pub enforce_key_package_limit : ℕ → Job ℕ
enforce_key_package_limit max_per_device = query database (λ s.
    let kept = keep_newest max_per_device s.key_packages [] s.key_packages in
    some (length s.key_packages - length kept, set_rows s kept))
