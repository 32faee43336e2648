-- ===== src/Sql/Laws.antt =====
-- Reasoning about statements: what holds after a run, whether it returns or fails. Transactions are
-- atomic.
use mls_ds.Prelude.{ℕ, suc, ◌≡◌, refl, ap, Option, some, none, Bool, true, false, if◌then◌else◌}
use mls_ds.Prelude.Results.{Result, ok, err}
use mls_ds.Sql.Defs.{
  World, Exec, query, answer, transaction, Ending, commit, rollback, restore, continue, finish,
  begun, ◌>>=◌,
}

-- The world after the next statement, with the tables that it leaves.
abbrev pub next : {S : Type 0} → World S → S → World S
next w s = record w { store = s; step = suc w.step }

module _ {S E : Type 0} where
  -- `Q` holds of a result, `R` of an error, each with the world in which the run ends.
  abbrev pub After :
      {A : Type 0} → (A → World S → Type 0) → (E → World S → Type 0) → Result E A × World S → Type 0
  After Q R (ok a, w) = Q a w
  After Q R (err e, w) = R e w

  abbrev pub Ensures : {A : Type 0} → (A → World S → Type 0) → Result E A × World S → Type 0
  Ensures Q r = After Q (λ _ _. Unit {0}) r

module _ {S E A : Type 0} where
  pub After-mono :
      (r : Result E A × World S) (P Q : A → World S → Type 0) (R T : E → World S → Type 0)
      → ((a : A) (w : World S) → P a w → Q a w)
      → ((e : E) (w : World S) → R e w → T e w)
      → After P R r
      → After Q T r
  After-mono (ok a, w) P Q R T f g h = f a w h
  After-mono (err e, w) P Q R T f g h = g e w h

  -- What holds of the tables on either outcome.
  pub After-world :
      (r : Result E A × World S) (P : World S → Type 0) → After (λ _ w. P w) (λ _ w. P w) r → P r.1
  After-world (ok a, w) P h = h
  After-world (err e, w) P h = h

  answer-After :
      (e : E) (w : World S) (o : Option (A × S)) (b : Bool) (Q : A → World S → Type 0)
      (R : E → World S → Type 0)
      → R e (next w w.store)
      → ((a : A) (s : S) → o ≡ some (a, s) → Q a (next w s))
      → After Q R (if b then (err e, next w w.store) else answer e (next w w.store) o)
  answer-After e w o true Q R r k = r
  answer-After e w none false Q R r k = r
  answer-After e w (some (a, s)) false Q R r k = k a s refl

  pub After-query :
      (e : E) (f : S → Option (A × S)) (w : World S) (Q : A → World S → Type 0)
      (R : E → World S → Type 0)
      → R e (next w w.store)
      → ((a : A) (s : S) → f w.store ≡ some (a, s) → Q a (next w s))
      → After Q R (query e f w)
  unfolding query
  After-query e f w Q R r k = answer-After e w (f w.store) (w.fails w.step) Q R r k

  pub Ensures-query :
      (e : E) (f : S → Option (A × S)) (w : World S) (Q : A → World S → Type 0)
      → ((a : A) (s : S) → f w.store ≡ some (a, s) → Q a (next w s))
      → Ensures Q (query e f w)
  Ensures-query e f w Q k = After-query e f w Q (λ _ _. Unit {0}) tt k

module _ {S E A B : Type 0} where
  continue-After :
      (r : Result E A × World S) (f : A → Exec S E B) (P : A → World S → Type 0)
      (Q : B → World S → Type 0) (R : E → World S → Type 0)
      → After P R r
      → ((a : A) (w : World S) → P a w → After Q R (f a w))
      → After Q R (continue r.0 f r.1)
  continue-After (ok a, w) f P Q R h k = k a w h
  continue-After (err e, w) f P Q R h k = h

  pub After-bind :
      (m : Exec S E A) (f : A → Exec S E B) (w : World S) (P : A → World S → Type 0)
      (Q : B → World S → Type 0) (R : E → World S → Type 0)
      → After P R (m w)
      → ((a : A) (w' : World S) → P a w' → After Q R (f a w'))
      → After Q R ((m >>= f) w)
  After-bind m f w P Q R h k = continue-After (m w) f P Q R h k

  pub Ensures-bind :
      (m : Exec S E A) (f : A → Exec S E B) (w : World S) (P : A → World S → Type 0)
      (Q : B → World S → Type 0)
      → Ensures P (m w)
      → ((a : A) (w' : World S) → P a w' → Ensures Q (f a w'))
      → Ensures Q ((m >>= f) w)
  Ensures-bind m f w P Q h k = After-bind m f w P Q (λ _ _. Unit {0}) h k

-- What the end of a transaction has to make true: of the body's tables, or of the first ones.
abbrev pub Ends : {S A : Type 0} → (A → World S → Type 0) → S → Ending A → World S → Type 0
Ends Q s (commit a) w = Q a (next w w.store)
Ends Q s (rollback a) w = Q a (next w s)

module _ {S E A : Type 0} where
  restore-After :
      (s : S) (r : Result E A × World S) (Q : A → World S → Type 0)
      → Ensures Q r
      → After Q (λ _ w. w.store ≡ s) (restore s r)
  restore-After s (ok a, w) Q h = h
  restore-After s (err e, w) Q h = refl

  finish-Ensures :
      (e : E) (s : S) (x : Ending A) (w : World S) (Q : A → World S → Type 0)
      → Ends Q s x w
      → Ensures Q (finish e s x w)
  finish-Ensures e s (commit a) w Q h =
      Ensures-query e (λ s'. some (a, s')) w Q
        (λ b s' same. let ea : a ≡ b = cc in let es : w.store ≡ s' = cc in rw (← ea, ← es) h)
  finish-Ensures e s (rollback a) w Q h = h

  -- A transaction ends in an error with the tables as they were, or as its body wants it.
  pub After-transaction :
      (b c : E) (body : Exec S E (Ending A)) (w : World S) (Q : A → World S → Type 0)
      → Ensures (Ends Q w.store) (body (next w w.store))
      → After Q (λ _ w'. w'.store ≡ w.store) (transaction b c body w)
  unfolding transaction
  After-transaction b c body w Q h = restore-After w.store _ Q (
      Ensures-bind (query b (λ s. some (begun, s))) (λ _. body >>= finish c w.store) w
        (λ _ w'. next w w.store ≡ w') Q
        (Ensures-query b (λ s. some (begun, s)) w (λ _ w'. next w w.store ≡ w')
          (λ a s same. let es : w.store ≡ s = cc in ap (next w) es))
        (λ a w' same. rw (← same) (
          Ensures-bind body (finish c w.store) (next w w.store) (Ends Q w.store) Q h
            (λ x v k. finish-Ensures c w.store x v Q k))))

-- No statement fails for a reason outside the tables.
abbrev pub NoFails : {S : Type 0} → World S → Type 0
NoFails w = (n : ℕ) → w.fails n ≡ false

pub query-NoFails :
    {S E A : Type 0} (e : E) (f : S → A × S) (w : World S)
    → NoFails w
    → query e (λ s. some (f s)) w ≡ (ok (f w.store).0, next w (f w.store).1)
unfolding query
query-NoFails e f w h = rw (h w.step) refl
