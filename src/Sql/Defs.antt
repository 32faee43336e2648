-- ===== src/Sql/Defs.antt =====
-- Statements, transactions and the monad that runs them.
use mls_ds.Prelude.{ℕ, suc, String, Bool, Option, none, some, if◌then◌else◌}
use mls_ds.Prelude.Results.{Result, ok, err}

pub record World (S : Type 0) : Type 0 where
  pub store : S
  pub fails : ℕ → Bool
  pub step : ℕ
  pub fresh : ℕ → String
  pub drawn : ℕ

abbrev pub Exec : Type 0 → Type 0 → Type 0 → Type 0
Exec S E A = World S → Result E A × World S

module _ {S E : Type 0} where
  abbrev pub pure : {A : Type 0} → A → Exec S E A
  pure a w = (ok a, w)

  abbrev pub throw : {A : Type 0} → E → Exec S E A
  throw e w = (err e, w)

  abbrev pub continue : {A B : Type 0} → Result E A → (A → Exec S E B) → Exec S E B
  continue (ok a) f w = f a w
  continue (err e) f w = (err e, w)

  infixl 5 ◌>>=◌ ◌>>◌
  abbrev pub ◌>>=◌ : {A B : Type 0} → Exec S E A → (A → Exec S E B) → Exec S E B
  ◌>>=◌ m f w = continue (m w).0 f (m w).1

  abbrev pub ◌>>◌ : {A B : Type 0} → Exec S E A → Exec S E B → Exec S E B
  m >> k = m >>= λ _. k

  abbrev pub lift : {A : Type 0} → Result E A → Exec S E A
  lift r w = (r, w)

  abbrev pub new_id : Exec S E String
  new_id w = (ok (w.fresh w.drawn), record w { drawn = suc w.drawn })

  abbrev pub answer : {A : Type 0} → E → World S → Option (A × S) → Result E A × World S
  answer e w none = (err e, w)
  answer e w (some (a, s)) = (ok a, record w { store = s })

  -- One statement. `none` is an error of the database itself, such as a violated constraint.
  unfoldable pub query : {A : Type 0} → E → (S → Option (A × S)) → Exec S E A
  query e f w =
      let next : World S = record w { step = suc w.step } in
      if w.fails w.step then (err e, next) else answer e next (f w.store)

  -- A statement whose error the code discards or handles on the spot.
  abbrev pub attempt : {A : Type 0} → Exec S E A → Exec S E (Result E A)
  attempt m w = (ok (m w).0, (m w).1)

-- How the body of a transaction ends without an error.
pub data Ending (A : Type 0) : Type 0 where
  commit rollback : A → Ending A

abbrev pub begun : Unit {0}
begun = tt

module _ {S E : Type 0} where
  abbrev pub restore : {A : Type 0} → S → Result E A × World S → Result E A × World S
  restore s (ok a, w) = (ok a, w)
  restore s (err e, w) = (err e, record w { store = s })

  -- `tx.commit()`, or `tx.rollback().await.ok()`, which discards an error.
  abbrev pub finish : {A : Type 0} → E → S → Ending A → Exec S E A
  finish e s (commit a) w = query e (λ s'. some (a, s')) w
  finish e s (rollback a) w = (ok a, record w { store = s; step = suc w.step })

  abbrev pub undone : {A : Type 0} → S → Exec S E A → Exec S E A
  undone s m w = restore s (m w)

  -- `pool.begin()`, the body, and the end; an error anywhere drops the transaction.
  unfoldable pub transaction : {A : Type 0} → E → E → Exec S E (Ending A) → Exec S E A
  transaction begin_error commit_error body w =
      undone w.store
        (query begin_error (λ s. some (begun, s)) >> (body >>= finish commit_error w.store)) w
