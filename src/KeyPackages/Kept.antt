-- ===== src/KeyPackages/Kept.antt =====
-- What every statement on the table keeps of its rows.
use mls_ds.Prelude.{
  ℕ, suc, String, ◌≡◌, inl, inr, Bool, true, false, not, ◌&&◌, Option, none, some, List, [], ◌∷◌,
  ◌++◌, All, where_-All, exists, str_eq, ltb, Bool-cases,
}
use mls_ds.Sql.{World, query, ◌>>=◌}
use mls_ds.KeyPackages.{
  KeyPackageRow, Tables, database, Validation, valid, invalid, timed_out, upsert_user, update,
  insert_row, checked, store_key_package_with_device, is_none, consume, is_unconsumed_data,
  consume_key_package, is_unconsumed, mark_key_package_consumed, is_reservable, reserve,
  reserve_key_package, delete_expired_key_packages, delete_consumed_key_packages,
  delete_old_unconsumed_key_packages, rank, keep_newest, enforce_key_package_limit,
}

update-All :
    (P : KeyPackageRow → Type 0) (p : KeyPackageRow → Bool) (f : KeyPackageRow → KeyPackageRow)
    (rs : List KeyPackageRow)
    → ((r : KeyPackageRow) → p r ≡ true → P r → P (f r))
    → All P rs
    → All P (update p f rs)
unfolding update
update-All P p f [] g h = tt
update-All P p f (r ∷ rs) g (h, hs) = elim (Bool-cases (p r)) [
  | inl t ↦ rw t (g r t h, update-All P p f rs g hs)
  | inr n ↦ rw n (h, update-All P p f rs g hs)
]

keep_newest-All :
    (P : KeyPackageRow → Type 0) (limit : ℕ) (all earlier rs : List KeyPackageRow)
    → All P rs
    → All P (keep_newest limit all earlier rs)
unfolding keep_newest
keep_newest-All P limit all earlier [] h = tt
keep_newest-All P limit all earlier (r ∷ rs) (h, hs) =
    elim (Bool-cases (is_none r.consumed_at && ltb limit (rank all earlier r))) [
      | inl t ↦ rw t (keep_newest-All P limit all (earlier ++ (r ∷ [])) rs hs)
      | inr n ↦ rw n (h, keep_newest-All P limit all (earlier ++ (r ∷ [])) rs hs)
    ]

-- A statement keeps what it does not break, where it fails too.
query-All :
    {A : Type 0} (P : KeyPackageRow → Type 0) (g : Tables → A × Tables) (w : World Tables)
    → All P (g w.store).1.key_packages
    → All P w.store.key_packages
    → All P (query database (λ s. some (g s)) w).1.store.key_packages
unfolding query
query-All P g w kept h = elim (Bool-cases (w.fails w.step)) [ inl t ↦ rw t h | inr f ↦ rw f kept ]

-- What the service does to the table.
pub data KeyEvent : Type 0 where
  stored : ℕ → String → String → List ℕ → ℕ → Option String → KeyEvent
  used : ℕ → String → String → List ℕ → KeyEvent
  marked : ℕ → String → String → KeyEvent
  reserved : ℕ → String → String → String → KeyEvent
  expired : ℕ → KeyEvent
  pruned_consumed pruned_old : ℕ → ℕ → KeyEvent
  limited : ℕ → KeyEvent

module _ (validate : List ℕ → Validation) where
  unfoldable pub apply : World Tables → KeyEvent → World Tables
  apply w (stored now did suite data_ expires_at device) =
      (store_key_package_with_device validate now did suite data_ expires_at device w).1
  apply w (used now did suite data_) = (consume_key_package now did suite data_ w).1
  apply w (marked now did hash) = (mark_key_package_consumed now did hash w).1
  apply w (reserved now did hash convo) = (reserve_key_package now did hash convo w).1
  apply w (expired now) = (delete_expired_key_packages now w).1
  apply w (pruned_consumed now hours) = (delete_consumed_key_packages now hours w).1
  apply w (pruned_old now days) = (delete_old_unconsumed_key_packages now days w).1
  apply w (limited max) = (enforce_key_package_limit max w).1

  unfoldable pub apply_all : World Tables → List KeyEvent → World Tables
  apply_all w [] = w
  apply_all w (e ∷ es) = apply_all (apply w e) es

  abbrev pub has_hash : Validation → String → Bool
  has_hash (valid h identity) hash = str_eq h hash
  has_hash invalid hash = false
  has_hash timed_out hash = false

  -- The event stores no package of this owner with this hash.
  abbrev pub IsOther : String → String → KeyEvent → Type 0
  IsOther did hash (stored now owner suite data_ expires_at device) =
      (str_eq owner did && has_hash (validate data_) hash) ≡ false
  IsOther did hash e = Unit

  -- A property of rows that no change of a row breaks, and new rows have.
  pub record IsKept (did hash : String) (P : KeyPackageRow → Type 0) : Type 0 where
    pub on_consume : (now : ℕ) (r : KeyPackageRow) → P r → P (consume now r)
    pub on_reserve :
        (now : ℕ) (owner h convo : String) (r : KeyPackageRow)
        → is_reservable now owner h r ≡ true
        → P r
        → P (reserve now convo r)
    pub on_insert :
        (r : KeyPackageRow)
        → (str_eq r.owner_did did && str_eq r.key_package_hash hash) ≡ false
        → P r

  module _ (did hash : String) (P : KeyPackageRow → Type 0) (kept : IsKept did hash P) where
    abbrev pub Rows : World Tables → Type 0
    Rows w = All P w.store.key_packages

    insert_Rows :
        (new : KeyPackageRow) (w : World Tables)
        → P new
        → Rows w
        → Rows (query database (insert_row new) w).1
    unfolding query
    insert_Rows new w n h = elim (Bool-cases (w.fails w.step)) [
      | inl t ↦ rw t h
      | inr f ↦ elim (Bool-cases (exists (λ r. str_eq r.id new.id) w.store.key_packages)) [
        | inl t ↦ rw (f, t) h
        | inr g ↦ rw (f, g) (n, h)
      ]
    ]

    abbrev new_row :
        String → ℕ → String → String → List ℕ → ℕ → Option String → String × String → KeyPackageRow
    new_row id now owner suite data_ expires_at device verified = record {
      id = id;
      owner_did = owner;
      device_id = device;
      credential_did = verified.1;
      cipher_suite = suite;
      key_package = data_;
      key_package_hash = verified.0;
      created_at = now;
      expires_at = expires_at;
      consumed_at = none;
      reserved_at = none;
      reserved_by_convo = none;
    }

    verified_Rows :
        (id : String) (now : ℕ) (owner suite : String) (data_ : List ℕ) (expires_at : ℕ)
        (device : Option String) (v : Validation) (w : World Tables)
        → (str_eq owner did && has_hash v hash) ≡ false
        → Rows w
        → Rows
            ((checked owner v >>= λ verified.
                query database
                  (insert_row (new_row id now owner suite data_ expires_at device verified)))
              w).1
    verified_Rows id now owner suite data_ expires_at device invalid w other h = h
    verified_Rows id now owner suite data_ expires_at device timed_out w other h = h
    verified_Rows id now owner suite data_ expires_at device (valid h' identity) w other h =
        elim (Bool-cases (not (str_eq identity owner))) [
          | inl t ↦ rw t h
          | inr f ↦
              let new = new_row id now owner suite data_ expires_at device (h', identity) in
              rw f (insert_Rows new w (kept.on_insert new other) h)
        ]

    stored_Rows :
        (now : ℕ) (owner suite : String) (data_ : List ℕ) (expires_at : ℕ) (device : Option String)
        (w : World Tables)
        → (str_eq owner did && has_hash (validate data_) hash) ≡ false
        → Rows w
        → Rows (store_key_package_with_device validate now owner suite data_ expires_at device w).1
    unfolding store_key_package_with_device query
    stored_Rows now owner suite data_ expires_at device w other h =
        let v : World Tables = record w {
          step = suc w.step;
          drawn = suc w.drawn;
          store = record w.store { users = upsert_user owner now w.store.users };
        } in
        elim (Bool-cases (w.fails w.step)) [
          | inl t ↦ rw t h
          | inr f ↦ rw f (
              verified_Rows (w.fresh w.drawn) now owner suite data_ expires_at device
                (validate data_) v other h)
        ]

    apply-Rows : (e : KeyEvent) (w : World Tables) → IsOther did hash e → Rows w → Rows (apply w e)
    unfolding apply consume_key_package mark_key_package_consumed reserve_key_package
        delete_expired_key_packages delete_consumed_key_packages delete_old_unconsumed_key_packages
        enforce_key_package_limit
    apply-Rows (stored now owner suite data_ expires_at device) w o h =
        stored_Rows now owner suite data_ expires_at device w o h
    apply-Rows (used now owner suite data_) w o h =
        query-All P _ w
          (update-All P (is_unconsumed_data owner suite data_) (consume now) w.store.key_packages
            (λ r t k. kept.on_consume now r k) h)
          h
    apply-Rows (marked now owner h') w o h =
        query-All P _ w
          (update-All P (is_unconsumed owner h') (consume now) w.store.key_packages
            (λ r t k. kept.on_consume now r k) h)
          h
    apply-Rows (reserved now owner h' convo) w o h =
        query-All P _ w
          (update-All P (is_reservable now owner h') (reserve now convo) w.store.key_packages
            (λ r t k. kept.on_reserve now owner h' convo r t k) h)
          h
    apply-Rows (expired now) w o h = query-All P _ w (where_-All P _ w.store.key_packages h) h
    apply-Rows (pruned_consumed now hours) w o h =
        query-All P _ w (where_-All P _ w.store.key_packages h) h
    apply-Rows (pruned_old now days) w o h =
        query-All P _ w (where_-All P _ w.store.key_packages h) h
    apply-Rows (limited max) w o h =
        query-All P _ w (keep_newest-All P max w.store.key_packages [] w.store.key_packages h) h

    pub run_Rows :
        (es : List KeyEvent) (w : World Tables)
        → All (IsOther did hash) es
        → Rows w
        → Rows (apply_all w es)
    unfolding apply_all
    run_Rows [] w o h = h
    run_Rows (e ∷ es) w (o, os) h = run_Rows es (apply w e) os (apply-Rows e w o h)
