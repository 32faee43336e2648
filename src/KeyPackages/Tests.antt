-- ===== src/KeyPackages/Tests.antt =====
-- A package that is stored, marked and cleaned up.
use mls_ds.Prelude.{ℕ, ◌≡◌, ◌≢◌, refl, true, false, none, List, [], ◌∷◌, exists}
use mls_ds.Prelude.Results.{ok, OnOk}
use mls_ds.Sql.{World, query}
use mls_ds.KeyPackages.{
  Validation, valid, Tables, update, get_key_package, mark_key_package_consumed,
  reserve_key_package,
}
use mls_ds.KeyPackages.Kept.{KeyEvent, stored, reserved, limited, apply_all}
use mls_ds.KeyPackages.Spent.{IsAnother, mark_key_package_consumed-once}

abbrev validate : List ℕ → Validation
validate [] = valid "hash 0" "did:a"
validate (b ∷ bs) = valid "hash 1" "did:a"

abbrev world : World Tables
world = record {
  store = record {
    users = [];
    key_packages =
        record {
          id = "1";
          owner_did = "did:a";
          device_id = none;
          credential_did = "did:a";
          cipher_suite = "suite";
          key_package = [];
          key_package_hash = "hash 0";
          created_at = 1;
          expires_at = 900;
          consumed_at = none;
          reserved_at = none;
          reserved_by_convo = none;
        }
        ∷ [];
  };
  fails = λ _. false;
  step = 0;
  fresh = λ _. "2";
  drawn = 0;
}

used_now : (mark_key_package_consumed 5 "did:a" "hash 0" world).0 ≡ ok true
unfolding mark_key_package_consumed query exists update
used_now = refl

abbrev events : List KeyEvent
events =
    stored 6 "did:a" "suite" (1 ∷ []) 900 none ∷ reserved 7 "did:a" "hash 0" "room" ∷ limited 1 ∷ []

mark_key_package_consumed-once_example :
    let w' = apply_all validate (mark_key_package_consumed 5 "did:a" "hash 0" world).1 events in
    ((mark_key_package_consumed 8 "did:a" "hash 0" w').0 ≢ ok true)
    × ((reserve_key_package 8 "did:a" "hash 0" "room" w').0 ≢ ok true)
    × OnOk (IsAnother "did:a" "hash 0") (get_key_package 8 "did:a" "suite" w').0
mark_key_package_consumed-once_example =
    mark_key_package_consumed-once validate 5 8 "did:a" "hash 0" "suite" "room" true events world
      used_now (refl, (tt, (tt, tt)))
