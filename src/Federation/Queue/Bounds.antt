-- ===== src/Federation/Queue/Bounds.antt =====
-- Retries stay within their limit.
use mls_ds.Prelude.{
  subst, sym, inl, inr, ℕ, ◌+◌, ◌≤◌, ◌≡◌, refl, sym, subst, Bool, true, false, List, [], ◌∷◌, All,
  arith, str_eq, if◌then◌else◌,
}
use mls_ds.Sql.{World}
use mls_ds.Federation.Signature.{Es256}
use mls_ds.Federation.Queue.{
  outbound, QueueItem, QueueRow, Tables, update, set_delivered, set_failed, set_retry,
  backoff_delay,
}
use mls_ds.Federation.Queue.Deliver.{Remote, process_item}
use mls_ds.Federation.Queue.Fate.{Fate, lost, delivered, failed, retried, process_item-Fate}

abbrev pub IsBounded : QueueRow → Type 0
IsBounded r = r.item.retry_count ≤ r.item.max_retries

-- The item was read from the row that has its id.
abbrev pub IsReadFrom : QueueItem → List QueueRow → Type 0
IsReadFrom item rows =
    All (λ r. str_eq r.item.id item.id ≡ true → r.item.max_retries ≡ item.max_retries) rows

update-All :
    (f : QueueRow → QueueRow) (item : QueueItem) (rows : List QueueRow)
    → ((r : QueueRow) → r.item.max_retries ≡ item.max_retries → IsBounded r → IsBounded (f r))
    → IsReadFrom item rows
    → All IsBounded rows
    → All IsBounded (update f item.id rows)
unfolding update
update-All f item [] step there h = tt
update-All f item (r ∷ rows) step (here, there) (h, hs) =
    (changed (str_eq r.item.id item.id) here, update-All f item rows step there hs)
  where
    changed :
        (b : Bool)
        → (b ≡ true → r.item.max_retries ≡ item.max_retries)
        → IsBounded (if b then f r else r)
    changed true same = step r (same refl) h
    changed false same = h

Fate-IsBounded :
    (item : QueueItem) (now : ℕ) (fails : ℕ → Bool) (rows rows' : List QueueRow)
    → Fate item now fails rows rows'
    → IsReadFrom item rows
    → All IsBounded rows
    → All IsBounded rows'
Fate-IsBounded item now fails rows rows' (lost n f same) there h =
    subst (All IsBounded) (sym same) h
Fate-IsBounded item now fails rows rows' (delivered same) there h =
    subst (All IsBounded) (sym same) (update-All set_delivered item rows (λ r m k. k) there h)
Fate-IsBounded item now fails rows rows' (failed x same) there h =
    subst (All IsBounded) (sym same) (update-All (set_failed x) item rows (λ r m k. k) there h)
Fate-IsBounded item now fails rows rows' (retried x again below same) there h =
    subst (All IsBounded) (sym same) (
      update-All
        (set_retry (item.retry_count + 1) (outbound x) (now + backoff_delay item.retry_count)) item
        rows (λ r m k. omega (arith, m, below)) there h)

-- No attempt counts more retries than a row allows, whatever the peers answer and whatever fails, for
-- an item that was read from its row.
pub process_item-IsBounded :
    (e : Es256) (remote : Remote e) (now : ℕ) (item : QueueItem) (w : World Tables)
    → IsReadFrom item w.store.outbound_queue
    → All IsBounded w.store.outbound_queue
    → All IsBounded (process_item e remote now item w).1.store.outbound_queue
process_item-IsBounded e remote now item w there h = elim (process_item-Fate e remote now item w) [
  | inl stopped ↦ subst (All IsBounded) (sym stopped.1) h
  | inr fate ↦ Fate-IsBounded item now w.fails _ _ fate there h
]
