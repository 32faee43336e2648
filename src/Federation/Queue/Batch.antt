-- ===== src/Federation/Queue/Batch.antt =====
-- A batch of attempts, each for an item that was read before the first of them.
use mls_ds.Prelude.{
  ℕ, zero, suc, ◌+◌, String, ◌≡◌, refl, sym, ap, subst, ◌∙◌, Bool, true, false, List, [], ◌∷◌, All,
  take, where_, length, leb, str_eq, if◌then◌else◌, Bool-cases, inl, inr, ◌⊎◌,
}
use mls_ds.Prelude.Results.{Result, ok, err}
use mls_ds.Sql.{World, query, pure, continue}
use mls_ds.Federation.Signature.{Es256}
use mls_ds.Federation.Queue.{
  outbound, QueueItem, QueueRow, Tables, update, set_delivered, set_failed, set_retry,
  backoff_delay,
}
use mls_ds.Federation.Queue.Deliver.{
  WorkerError, Remote, is_due, insert_due, order_due, process_item, process_all,
  process_pending_batch,
}
use mls_ds.Federation.Queue.Fate.{
  HasStopped, Fate, lost, delivered, failed, retried, process_item-Fate,
}
use mls_ds.Federation.Queue.Bounds.{IsBounded, IsReadFrom, process_item-IsBounded}

-- Rows with one id have one limit of retries, as they are one row by the primary key.
abbrev pub IsKeyed : List QueueRow → Type 0
IsKeyed rows = All (λ r. IsReadFrom r.item rows) rows

update-IsReadFrom :
    (f : QueueRow → QueueRow) (id : String) (item : QueueItem) (rows : List QueueRow)
    → ((r : QueueRow) → ((f r).item.id ≡ r.item.id) × ((f r).item.max_retries ≡ r.item.max_retries))
    → IsReadFrom item rows
    → IsReadFrom item (update f id rows)
unfolding update
update-IsReadFrom f id item [] same h = tt
update-IsReadFrom f id item (r ∷ rows) same (h, hs) =
    (here (str_eq r.item.id id), update-IsReadFrom f id item rows same hs)
  where
    here :
        (b : Bool)
        → let x : QueueRow = if b then f r else r in
          str_eq x.item.id item.id ≡ true → x.item.max_retries ≡ item.max_retries
    here true k = (same r).1 ∙ h (ap (λ i. str_eq i item.id) (sym (same r).0) ∙ k)
    here false k = h k

Fate-IsReadFrom :
    (item other : QueueItem) (now : ℕ) (fails : ℕ → Bool) (rows rows' : List QueueRow)
    → Fate item now fails rows rows'
    → IsReadFrom other rows
    → IsReadFrom other rows'
Fate-IsReadFrom item other now fails rows rows' (lost n f same) h =
    subst (IsReadFrom other) (sym same) h
Fate-IsReadFrom item other now fails rows rows' (delivered same) h =
    subst (IsReadFrom other) (sym same)
      (update-IsReadFrom set_delivered item.id other rows (λ r. (refl, refl)) h)
Fate-IsReadFrom item other now fails rows rows' (failed x same) h =
    subst (IsReadFrom other) (sym same)
      (update-IsReadFrom (set_failed x) item.id other rows (λ r. (refl, refl)) h)
Fate-IsReadFrom item other now fails rows rows' (retried x again below same) h =
    subst (IsReadFrom other) (sym same) (
      update-IsReadFrom
        (set_retry (item.retry_count + 1) (outbound x) (now + backoff_delay item.retry_count))
        item.id other rows (λ r. (refl, refl)) h)

module _ (P : QueueRow → Type 0) where
  All-take : (n : ℕ) (rows : List QueueRow) → All P rows → All P (take n rows)
  All-take zero rows h = tt
  All-take (suc n) [] h = tt
  All-take (suc n) (r ∷ rows) (h, hs) = (h, All-take n rows hs)

  All-where_ : (p : QueueRow → Bool) (rows : List QueueRow) → All P rows → All P (where_ p rows)
  unfolding where_
  All-where_ p [] h = tt
  All-where_ p (r ∷ rows) (h, hs) = elim (Bool-cases (p r)) [
    | inl t ↦ rw t (h, All-where_ p rows hs)
    | inr f ↦ rw f (All-where_ p rows hs)
  ]

module _ (e : Es256) (remote : Remote e) (now : ℕ) where
  module _ (P : QueueRow → Type 0) where
    All-insert_due :
        (r : QueueRow) (rows : List QueueRow)
        → P r
        → All P rows
        → All P (insert_due e remote now r rows)
    unfolding insert_due
    All-insert_due r [] p h = (p, tt)
    All-insert_due r (x ∷ rows) p (h, hs) =
        elim (Bool-cases (leb x.next_retry_at r.next_retry_at)) [
          | inl t ↦ rw t (h, All-insert_due r rows p hs)
          | inr f ↦ rw f (p, (h, hs))
        ]

    All-order_due : (rows : List QueueRow) → All P rows → All P (order_due e remote now rows)
    unfolding order_due
    All-order_due [] h = tt
    All-order_due (r ∷ rows) (h, hs) =
        All-insert_due r (order_due e remote now rows) h (All-order_due rows hs)

  All-Fate :
      (item : QueueItem) (fails : ℕ → Bool) (rows rows' : List QueueRow) (due : List QueueRow)
      → Fate item now fails rows rows'
      → All (λ r. IsReadFrom r.item rows) due
      → All (λ r. IsReadFrom r.item rows') due
  All-Fate item fails rows rows' [] f h = tt
  All-Fate item fails rows rows' (r ∷ due) f (h, hs) = (
    Fate-IsReadFrom item r.item now fails rows rows' f h,
    All-Fate item fails rows rows' due f hs,
  )

  process_all-IsBounded :
      (due : List QueueRow) (w : World Tables)
      → All (λ r. IsReadFrom r.item w.store.outbound_queue) due
      → All IsBounded w.store.outbound_queue
      → All IsBounded (process_all e remote now due w).1.store.outbound_queue
  unfolding process_all
  process_all-IsBounded [] w there h = h
  process_all-IsBounded (r ∷ due) w (there, theres) h =
      next_rows (process_item e remote now r.item w) (process_item-Fate e remote now r.item w)
        (process_item-IsBounded e remote now r.item w there h) (process_all-IsBounded due)
    where
      next_rows :
          (x : Result WorkerError (Unit {0}) × World Tables)
          → (HasStopped e remote w.store.outbound_queue x.1.store.outbound_queue x.0
              ⊎ Fate r.item now w.fails w.store.outbound_queue x.1.store.outbound_queue)
          → All IsBounded x.1.store.outbound_queue
          → ((v : World Tables)
              → All (λ d. IsReadFrom d.item v.store.outbound_queue) due
              → All IsBounded v.store.outbound_queue
              → All IsBounded (process_all e remote now due v).1.store.outbound_queue)
          → All IsBounded
              (continue x.0 (λ _. process_all e remote now due) x.1).1.store.outbound_queue
      next_rows (err y, v) f bounded rest = bounded
      next_rows (ok a, v) (inl stopped) bounded rest = absurd (let n = stopped.0 in cc)
      next_rows (ok a, v) (inr fate) bounded rest =
          rest v (All-Fate r.item w.fails _ _ due fate theres) bounded

  -- A batch leaves every row within its limit of retries, whatever the peers answer and whatever statements
  -- fail, where every row was and rows with one id have one limit.
  pub process_pending_batch-IsBounded :
      (w : World Tables)
      → IsKeyed w.store.outbound_queue
      → All IsBounded w.store.outbound_queue
      → All IsBounded (process_pending_batch e remote now w).1.store.outbound_queue
  unfolding process_pending_batch query
  process_pending_batch-IsBounded w keyed h = elim (Bool-cases (w.fails w.step)) [
    | inl t ↦ rw t h
    | inr f ↦
        rw f (counted (process_all e remote now picked v) (process_all-IsBounded picked v there h))
  ]
    where
      picked : List QueueRow
      picked =
          take 10 (order_due e remote now (where_ (is_due e remote now) w.store.outbound_queue))

      v : World Tables
      v = record w { step = suc w.step }

      there : All (λ r. IsReadFrom r.item w.store.outbound_queue) picked
      there =
          All-take (λ r. IsReadFrom r.item w.store.outbound_queue) 10 _
            (All-order_due (λ r. IsReadFrom r.item w.store.outbound_queue) _
              (All-where_ (λ r. IsReadFrom r.item w.store.outbound_queue) (is_due e remote now) _
                keyed))

      counted :
          (r : Result WorkerError (Unit {0}) × World Tables)
          → All IsBounded r.1.store.outbound_queue
          → All IsBounded (continue r.0 (λ _. pure (length picked)) r.1).1.store.outbound_queue
      counted (ok a, u) k = k
      counted (err x, u) k = k
