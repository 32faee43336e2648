-- ===== src/KeyPackages/Spent.antt =====
-- A key package is used once.
use mls_ds.Prelude.{
  ℕ, String, ◌≡◌, ◌≢◌, refl, inl, inr, Bool, true, false, ◌&&◌, Option, none, some, List, [], ◌∷◌,
  All, where_, where_-All, exists, str_eq, ltb, Bool-cases,
}
use mls_ds.Prelude.Results.{ok, err, OnOk}
use mls_ds.Sql.{World, query}
use mls_ds.KeyPackages.{
  KeyPackageRow, Tables, database, Validation, update, older, oldest, is_none, is_available,
  get_key_package, consume, is_unconsumed, mark_key_package_consumed, is_reservable,
  reserve_key_package,
}
use mls_ds.KeyPackages.Kept.{KeyEvent, apply_all, IsOther, IsKept, run_Rows}

-- A package that is gone: consumed, or none of this owner with this hash.
abbrev Gone : String → String → KeyPackageRow → Type 0
Gone did hash r = is_unconsumed did hash r ≡ false

gone_if_consumed : (a b : Bool) → (a && b && false) ≡ false
gone_if_consumed true true = refl
gone_if_consumed true false = refl
gone_if_consumed false b = refl

gone_if_other : (a b c : Bool) → (a && b) ≡ false → (a && b && c) ≡ false
gone_if_other true true c h = cc
gone_if_other true false c h = refl
gone_if_other false b c h = refl

Gone-IsKept :
    (validate : List ℕ → Validation) (did hash : String) → IsKept validate did hash (Gone did hash)
Gone-IsKept validate did hash = record {
  on_consume =
      λ now r h. gone_if_consumed (str_eq r.owner_did did) (str_eq r.key_package_hash hash);
  on_reserve = λ now owner h' convo r t h. h;
  on_insert = λ r h.
      gone_if_other (str_eq r.owner_did did) (str_eq r.key_package_hash hash)
        (is_none r.consumed_at) h;
}

marked_Gone :
    (now : ℕ) (did hash : String) (rs : List KeyPackageRow)
    → All (Gone did hash) (update (is_unconsumed did hash) (consume now) rs)
unfolding update
marked_Gone now did hash [] = tt
marked_Gone now did hash (r ∷ rs) = elim (Bool-cases (is_unconsumed did hash r)) [
  | inl t ↦ rw t (
    gone_if_consumed (str_eq r.owner_did did) (str_eq r.key_package_hash hash),
    marked_Gone now did hash rs,
  )
  | inr f ↦ rw f (f, marked_Gone now did hash rs)
]

exists-Gone :
    (did hash : String) (rs : List KeyPackageRow)
    → All (Gone did hash) rs
    → exists (is_unconsumed did hash) rs ≡ false
unfolding exists
exists-Gone did hash [] h = refl
exists-Gone did hash (r ∷ rs) (h, hs) = rw h (exists-Gone did hash rs hs)

-- The package that is offered is not this one.
abbrev pub IsAnother : String → String → Option KeyPackageRow → Type 0
IsAnother did hash none = Unit
IsAnother did hash (some r) = (str_eq r.owner_did did && str_eq r.key_package_hash hash) ≡ false

where_-passes :
    (p : KeyPackageRow → Bool) (rs : List KeyPackageRow) → All (λ r. p r ≡ true) (where_ p rs)
unfolding where_
where_-passes p [] = tt
where_-passes p (r ∷ rs) = elim (Bool-cases (p r)) [
  | inl t ↦ rw t (t, where_-passes p rs)
  | inr f ↦ rw f (where_-passes p rs)
]

OnSome : (KeyPackageRow → Type 0) → Option KeyPackageRow → Type 0
OnSome P none = Unit
OnSome P (some r) = P r

older-All :
    (P : KeyPackageRow → Type 0) (r : KeyPackageRow) (o : Option KeyPackageRow)
    → P r
    → OnSome P o
    → P (older r o)
unfolding OnSome
older-All P r none h k = h
older-All P r (some x) h k = elim (Bool-cases (ltb x.created_at r.created_at)) [
  | inl t ↦ rw t k
  | inr f ↦ rw f h
]

oldest-All :
    (P : KeyPackageRow → Type 0) (rs : List KeyPackageRow) → All P rs → OnSome P (oldest rs)
unfolding oldest OnSome
oldest-All P [] h = tt
oldest-All P (r ∷ rs) (h, hs) = older-All P r (oldest rs) h (oldest-All P rs hs)

both :
    (P Q : KeyPackageRow → Type 0) (rs : List KeyPackageRow)
    → All P rs
    → All Q rs
    → All (λ r. P r × Q r) rs
both P Q [] h k = tt
both P Q (r ∷ rs) (h, hs) (k, ks) = ((h, k), both P Q rs hs ks)

third_true : (a b c d : Bool) → (a && b && c && d) ≡ true → c ≡ true
third_true true true true d h = refl
third_true true true false d h = cc
third_true true false c d h = cc
third_true false b c d h = cc

not_this : (a b c : Bool) → (a && b && c) ≡ false → c ≡ true → (a && b) ≡ false
not_this true true true h k = h
not_this true true false h k = cc
not_this true false c h k = refl
not_this false b c h k = refl

another :
    (did hash : String) (now : ℕ) (suite : String) (o : Option KeyPackageRow)
    → OnSome (λ r. Gone did hash r × (is_available now did suite r ≡ true)) o
    → IsAnother did hash o
unfolding OnSome
another did hash now suite none h = tt
another did hash now suite (some r) h =
    not_this (str_eq r.owner_did did) (str_eq r.key_package_hash hash) (is_none r.consumed_at) h.0 (
      third_true (str_eq r.owner_did did) (str_eq r.cipher_suite suite) (is_none r.consumed_at)
        (ltb now r.expires_at) h.1)

offered :
    (did hash : String) (now : ℕ) (suite : String) (w : World Tables)
    → All (Gone did hash) w.store.key_packages
    → OnOk (IsAnother did hash) (get_key_package now did suite w).0
unfolding get_key_package query
offered did hash now suite w h = elim (Bool-cases (w.fails w.step)) [
  | inl t ↦ rw t tt
  | inr f ↦ rw f (
      another did hash now suite (oldest (where_ (is_available now did suite) w.store.key_packages))
        (oldest-All _ (where_ (is_available now did suite) w.store.key_packages) (
          both _ _ (where_ (is_available now did suite) w.store.key_packages)
            (where_-All (Gone did hash) (is_available now did suite) w.store.key_packages h)
            (where_-passes (is_available now did suite) w.store.key_packages))))
]

unmarked :
    (did hash : String) (now : ℕ) (w : World Tables)
    → All (Gone did hash) w.store.key_packages
    → (mark_key_package_consumed now did hash w).0 ≢ ok true
unfolding mark_key_package_consumed query
unmarked did hash now w h = elim (Bool-cases (w.fails w.step)) [
  | inl t ↦ rw t (λ k. cc)
  | inr f ↦ rw (f, exists-Gone did hash w.store.key_packages h) (λ k. cc)
]

nothing_reservable :
    (did hash : String) (now : ℕ) (rs : List KeyPackageRow)
    → All (Gone did hash) rs
    → exists (is_reservable now did hash) rs ≡ false
unfolding exists
nothing_reservable did hash now [] h = refl
nothing_reservable did hash now (r ∷ rs) (h, hs) = rw h (nothing_reservable did hash now rs hs)

unreserved :
    (did hash : String) (now : ℕ) (convo : String) (w : World Tables)
    → exists (is_reservable now did hash) w.store.key_packages ≡ false
    → (reserve_key_package now did hash convo w).0 ≢ ok true
unfolding reserve_key_package query
unreserved did hash now convo w h = elim (Bool-cases (w.fails w.step)) [
  | inl t ↦ rw t (λ k. cc)
  | inr f ↦ rw (f, h) (λ k. cc)
]

after_mark :
    (now : ℕ) (did hash : String) (b : Bool) (w : World Tables)
    → (mark_key_package_consumed now did hash w).0 ≡ ok b
    → All (Gone did hash) (mark_key_package_consumed now did hash w).1.store.key_packages
unfolding mark_key_package_consumed query
after_mark now did hash b w h = elim (Bool-cases (w.fails w.step)) [
  | inl t ↦ let n : err database ≡ ok b = (rw t at h) in cc
  | inr f ↦ rw f (marked_Gone now did hash w.store.key_packages)
]

module _ (validate : List ℕ → Validation) where
  -- Once a key package was marked as consumed by its owner and hash, then after whatever else happens to
  -- the table but the storing of a package with that owner and hash, and whatever statements fail, it
  -- is neither marked nor reserved again, and get_key_package gives the owner none with that hash.
  pub mark_key_package_consumed-once :
      (now now' : ℕ) (did hash suite convo : String) (b : Bool) (es : List KeyEvent)
      (w : World Tables)
      → (mark_key_package_consumed now did hash w).0 ≡ ok b
      → All (IsOther validate did hash) es
      → let w' = apply_all validate (mark_key_package_consumed now did hash w).1 es in
        ((mark_key_package_consumed now' did hash w').0 ≢ ok true)
        × ((reserve_key_package now' did hash convo w').0 ≢ ok true)
        × OnOk (IsAnother did hash) (get_key_package now' did suite w').0
  mark_key_package_consumed-once now now' did hash suite convo b es w h others =
      let w' = apply_all validate (mark_key_package_consumed now did hash w).1 es in
      let gone : All (Gone did hash) w'.store.key_packages =
        run_Rows validate did hash (Gone did hash) (Gone-IsKept validate did hash) es
          (mark_key_package_consumed now did hash w).1 others (after_mark now did hash b w h) in
      (
        unmarked did hash now' w' gone,
        unreserved did hash now' convo w'
            (nothing_reservable did hash now' w'.store.key_packages gone),
        offered did hash now' suite w' gone,
      )
