-- ===== src/Federation/Signature/Example.antt =====
-- Operations that have the laws of `Es256`: a signature is the key and the message.
use mls_ds.Prelude.{
  bytes_eq_refl, ℕ, ◌≡◌, refl, sym, true, false, some, List, [], ◌∷◌, bytes_eq, ◌==◌, ==_iff,
  ==_refl, Bool-cases, inl, inr,
}
use mls_ds.Federation.Signature.{Es256}

pub bytes_eq→≡ : (xs ys : List ℕ) → bytes_eq xs ys ≡ true → ys ≡ xs
unfolding bytes_eq
bytes_eq→≡ [] [] h = refl
bytes_eq→≡ [] (y ∷ ys) h = cc
bytes_eq→≡ (x ∷ xs) [] h = cc
bytes_eq→≡ (x ∷ xs) (y ∷ ys) h = elim (Bool-cases (x == y)) [
  | inl t ↦
      let e : x ≡ y = (==_iff x y).0 t in
      let k : bytes_eq xs ys ≡ true = (rw t at h) in let r : ys ≡ xs = bytes_eq→≡ xs ys k in cc
  | inr f ↦ let n : false ≡ true = (rw f at h) in cc
]

abbrev zeros : List ℕ
zeros =
    0 ∷ 0 ∷ 0 ∷ 0 ∷ 0 ∷ 0 ∷ 0 ∷ 0 ∷ 0 ∷ 0 ∷ 0 ∷ 0 ∷ 0 ∷ 0 ∷ 0 ∷ 0 ∷ 0 ∷ 0 ∷ 0 ∷ 0 ∷ 0 ∷ 0 ∷ 0 ∷ 0
    ∷ 0 ∷ 0 ∷ 0 ∷ 0 ∷ 0 ∷ 0 ∷ 0 ∷ 0 ∷ []

pub tail_≡ : (k : ℕ) (m n : List ℕ) → bytes_eq (k ∷ n) (k ∷ m) ≡ true → n ≡ m
unfolding bytes_eq
tail_≡ k m n h = let e : bytes_eq n m ≡ true = (rw (==_refl k) at h) in sym (bytes_eq→≡ n m e)

abbrev pub plain : Es256
plain = record {
  SigningKey = ℕ;
  VerifyingKey = ℕ;
  Signature = List ℕ;
  verifying_key = λ k. k;
  sign = λ k m. k ∷ m;
  verify = λ k m s. bytes_eq (k ∷ m) s;
  to_bytes = λ s. s;
  from_slice = λ s. some s;
  sha256 = λ _. zeros;
  from_slice-to_bytes = λ s. refl;
  verify-sign = λ k m. bytes_eq_refl (k ∷ m);
  verify_binds = λ k m n h. tail_≡ k m n h;
  length-sha256 = λ m. refl;
}
