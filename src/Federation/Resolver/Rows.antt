-- ===== src/Federation/Resolver/Rows.antt =====
-- The rows that the statements leave.
use mls_ds.Prelude.{
  ◌≡◌, refl, sym, ◌∙◌, Bool, true, false, ◌&&◌, some, [], ◌∷◌, All, find, where_, str_eq, eq_refl,
  Bool-cases, inl, inr,
}
use mls_ds.Federation.Resolver.{EndpointRow, Endpoints, upsert_endpoint}

pub upsert_endpoint-All :
    (P : EndpointRow → Type 0) (new : EndpointRow) (rs : Endpoints)
    → P new
    → All P rs
    → All P (upsert_endpoint new rs)
unfolding upsert_endpoint
upsert_endpoint-All P new [] n h = (n, tt)
upsert_endpoint-All P new (r ∷ rs) n (h, hs) = elim (Bool-cases (str_eq r.did new.did)) [
  | inl t ↦ rw t (n, hs)
  | inr f ↦ rw f (h, upsert_endpoint-All P new rs n hs)
]

-- The row that was put is the one that is found for its DID.
pub find-upsert_endpoint :
    (new : EndpointRow) (p : EndpointRow → Bool) (rs : Endpoints)
    → p new ≡ true
    → find (λ r. str_eq r.did new.did && p r) (upsert_endpoint new rs) ≡ some new
unfolding find upsert_endpoint
find-upsert_endpoint new p [] h = rw (eq_refl new.did, h) refl
find-upsert_endpoint new p (r ∷ rs) h = elim (Bool-cases (str_eq r.did new.did)) [
  | inl t ↦ rw t (rw (eq_refl new.did, h) refl)
  | inr f ↦ rw f (rw f (find-upsert_endpoint new p rs h))
]

-- A row that a test keeps is found where it was.
pub find-where_ :
    (p q : EndpointRow → Bool) (rs : Endpoints)
    → ((r : EndpointRow) → p r ≡ true → q r ≡ true)
    → find p (where_ q rs) ≡ find p rs
unfolding find where_
find-where_ p q [] keep = refl
find-where_ p q (r ∷ rs) keep = elim (Bool-cases (q r)) [
  | inl t ↦
      rw t (elim (Bool-cases (p r)) [ inl s ↦ rw s refl | inr f ↦ rw f (find-where_ p q rs keep) ])
  | inr f ↦ elim (Bool-cases (p r)) [
    | inl s ↦ let k : q r ≡ true = keep r s in let n : false ≡ true = sym f ∙ k in cc
    | inr g ↦ rw (f, g) (find-where_ p q rs keep)
  ]
]
