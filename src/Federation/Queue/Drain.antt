-- ===== src/Federation/Queue/Drain.antt =====
-- A queued item does not stay in the queue.
use mls_ds.Prelude.{
  All, ℕ, suc, ◌+◌, ◌≤◌, ◌<◌, String, ◌≡◌, refl, ap, ◌∙◌, true, false, Option, none, some, List, [],
  ◌∷◌, find, length, arith, str_eq, if◌then◌else◌, Bool-cases, ◌⊎◌, inl, inr, eq_iff,
}
use mls_ds.Sql.{World, NoFails}
use mls_ds.Federation.Signature.{Es256}
use mls_ds.Federation.Queue.{
  outbound, is_pending, QueueRow, Tables, update, set_delivered, set_failed, set_retry,
  backoff_delay,
}
use mls_ds.Federation.Queue.Deliver.{Remote, process_item}
use mls_ds.Federation.Queue.Fate.{
  HasPanic, HasStopped, Fate, lost, delivered, failed, retried, process_item-Fate,
  fails-process_item,
}

abbrev pub row_of : String → List QueueRow → Option QueueRow
row_of id rows = find (λ r. str_eq r.item.id id) rows

row_of-update :
    (f : QueueRow → QueueRow) (id : String) (rows : List QueueRow) (r : QueueRow)
    → ((x : QueueRow) → (f x).item.id ≡ x.item.id)
    → row_of id rows ≡ some r
    → row_of id (update f id rows) ≡ some (f r)
unfolding update find
row_of-update f id [] r same there = cc
row_of-update f id (x ∷ rows) r same there = elim (Bool-cases (str_eq x.item.id id)) [
  | inl t ↦
      let h : some x ≡ some r = (rw t at there) in
      rw t (
        let k : str_eq (f x).item.id id ≡ true = ap (λ i. str_eq i id) (same x) ∙ t in
        let e : x ≡ r = cc in rw k (ap (λ y. some (f y)) e))
  | inr g ↦
      let h : row_of id rows ≡ some r = (rw g at there) in
      rw g (rw g (row_of-update f id rows r same h))
]

row_of-id :
    (id : String) (rows : List QueueRow) (r : QueueRow)
    → row_of id rows ≡ some r
    → str_eq r.item.id id ≡ true
unfolding find
row_of-id id [] r there = cc
row_of-id id (x ∷ rows) r there = elim (Bool-cases (str_eq x.item.id id)) [
  | inl t ↦ let h : some x ≡ some r = (rw t at there) in let e : x ≡ r = cc in rw (← e) t
  | inr g ↦ row_of-id id rows r (rw g at there)
]

-- The worker comes by: it attempts the item's row where that is pending. Each time it may find other
-- peers and another clock.
abbrev visit_row : (e : Es256) → Remote e → ℕ → Option QueueRow → World Tables → World Tables
visit_row e remote now none w = w
visit_row e remote now (some r) w =
    if is_pending r.status then (process_item e remote now r.item w).1 else w

module _ (e : Es256) (id : String) where
  unfoldable pub visits : List (ℕ × Remote e) → World Tables → World Tables
  visits [] w = w
  visits ((now, remote) ∷ vs) w =
      visits vs (visit_row e remote now (row_of id w.store.outbound_queue) w)

  -- The row is there and no longer pending.
  pub record IsSettled (w : World Tables) : Type 0 where
    pub row : QueueRow
    pub found : row_of id w.store.outbound_queue ≡ some row
    pub settled : is_pending row.status ≡ false

  stays : (vs : List (ℕ × Remote e)) (w : World Tables) → IsSettled w → IsSettled (visits vs w)
  unfolding visits
  stays [] w h = h
  stays ((now, remote) ∷ vs) w h = stays vs _ (rw (h.found, h.settled) h)

  module _ (now : ℕ) (remote : Remote e) (w : World Tables) (r : QueueRow) where
    -- One attempt settles the row or counts one more retry, where no statement fails.
    abbrev Progress : World Tables → Type 0
    Progress w' =
        IsSettled w'
        ⊎ ((r' : QueueRow) × (row_of id w'.store.outbound_queue ≡ some r')
            × (r'.item.retry_count ≡ suc r.item.retry_count)
            × (r'.item.max_retries ≡ r.item.max_retries)
            × (r.item.retry_count < r.item.max_retries))

    changed :
        (f : QueueRow → QueueRow) (w' : World Tables)
        → row_of id w.store.outbound_queue ≡ some r
        → ((x : QueueRow) → (f x).item.id ≡ x.item.id)
        → w'.store.outbound_queue ≡ update f r.item.id w.store.outbound_queue
        → row_of id w'.store.outbound_queue ≡ some (f r)
    changed f w' found same rows =
        let ei : r.item.id ≡ id =
          (eq_iff r.item.id id).0 (row_of-id id w.store.outbound_queue r found) in
        ap (row_of id) (rows ∙ ap (λ i. update f i w.store.outbound_queue) ei)
        ∙ row_of-update f id w.store.outbound_queue r same found

    Fate-Progress :
        (w' : World Tables)
        → NoFails w
        → row_of id w.store.outbound_queue ≡ some r
        → Fate r.item now w.fails w.store.outbound_queue w'.store.outbound_queue
        → Progress w'
    Fate-Progress w' sound found (lost n fails same) = let x : w.fails n ≡ false = sound n in cc
    Fate-Progress w' sound found (delivered same) = inl (record {
      row = set_delivered r;
      found = changed set_delivered w' found (λ x. refl) same;
      settled = refl;
    })
    Fate-Progress w' sound found (failed x same) = inl (record {
      row = set_failed x r;
      found = changed (set_failed x) w' found (λ y. refl) same;
      settled = refl;
    })
    Fate-Progress w' sound found (retried x again below same) =
        let f =
          set_retry (r.item.retry_count + 1) (outbound x)
            (now + backoff_delay r.item.retry_count) in
        inr (f r, changed f w' found (λ y. refl) same, omega arith, refl, below)

  -- Where no statement fails and no DID document makes the search for a key panic, an item with at most
  -- its allowed number of retries is delivered or has failed after one visit of the worker more than
  -- the retries that it has left, whatever the peers answer.
  pub visits-IsSettled :
      (vs : List (ℕ × Remote e)) (w : World Tables) (r : QueueRow)
      → NoFails w
      → row_of id w.store.outbound_queue ≡ some r
      → r.item.retry_count ≤ r.item.max_retries
      → r.item.max_retries < r.item.retry_count + length vs
      → All (λ v. HasPanic e v.1 → ⊥) vs
      → IsSettled (visits vs w)
  unfolding visits
  visits-IsSettled [] w r sound found small enough calm = absurd (omega arith)
  visits-IsSettled ((now, remote) ∷ vs) w r sound found small enough (here, calm) =
      elim (Bool-cases (is_pending r.status)) [
        | inl t ↦
            rw (found, t)
              (go
                (λ r' there small' enough'.
                  visits-IsSettled vs w' r'
                    (λ n. ap (λ g. g n) (fails-process_item e remote now r.item w) ∙ sound n) there
                    small' enough' calm)
                (Fate-Progress now remote w r w' sound found
                  (fated (process_item-Fate e remote now r.item w))))
        | inr f ↦ rw (found, f) (stays vs w (record { row = r; found = found; settled = f }))
      ]
    where
      w' : World Tables
      w' = (process_item e remote now r.item w).1

      fated :
          HasStopped e remote w.store.outbound_queue
              (process_item e remote now r.item w).1.store.outbound_queue
              (process_item e remote now r.item w).0
            ⊎ Fate r.item now w.fails w.store.outbound_queue
                (process_item e remote now r.item w).1.store.outbound_queue
          → Fate r.item now w.fails w.store.outbound_queue
              (process_item e remote now r.item w).1.store.outbound_queue
      fated (inl stopped) = absurd (here stopped.2)
      fated (inr fate) = fate

      go :
          ((r' : QueueRow)
            → row_of id w'.store.outbound_queue ≡ some r'
            → r'.item.retry_count ≤ r'.item.max_retries
            → r'.item.max_retries < r'.item.retry_count + length vs
            → IsSettled (visits vs w'))
          → Progress now remote w r w'
          → IsSettled (visits vs w')
      go rest (inl done) = stays vs w' done
      go rest (inr (r', there, count, limit, below)) =
          rest r' there (omega (arith, count, limit, below)) (omega (arith, count, limit, enough))
