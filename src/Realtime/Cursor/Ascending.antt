-- ===== src/Realtime/Cursor/Ascending.antt =====
-- The cursors of a stream ascend.
use mls_ds.Prelude.{
  ℕ, ◌<◌, String, ◌≡◌, refl, sym, ap, subst, ◌∙◌, Bool, true, false, not, ◌&&◌, Option, none, some,
  List, [], ◌∷◌, ltb, ltb→lt, str_eq, eq_iff, if◌then◌else◌, Bool-cases, inl, inr,
}
use mls_ds.Realtime.Cursor.{Ulids, CursorGenerator, Call, stream_key, or_redrawn, after_last, next}

module _ (ulids : Ulids) where
  -- The call finds a last ULID that is not earlier than the clock and has no successor.
  abbrev is_none : Option ℕ → Bool
  is_none none = true
  is_none (some n) = false

  abbrev pub overflows : Option ℕ → Call → Bool
  overflows none c = false
  overflows (some last) c =
      not (ltb (ulids.timestamp_ms last) (ulids.timestamp_ms c.drawn))
      && is_none (ulids.increment last)

  unfoldable pub cursors : CursorGenerator → List Call → List (String × ℕ)
  cursors g [] = []
  cursors g (c ∷ cs) =
      let r = next ulids g c in (stream_key c.convo_id c.event_type, r.0) ∷ cursors r.1 cs

  -- No call of the run overflows.
  unfoldable pub is_steady : CursorGenerator → List Call → Bool
  is_steady g [] = true
  is_steady g (c ∷ cs) =
      not (overflows (g.last_ulids (stream_key c.convo_id c.event_type)) c)
      && is_steady (next ulids g c).1 cs

  abbrev pub Above : Option ℕ → ℕ → Type 0
  Above none n = Unit {0}
  Above (some last) n = last < n

  -- Of the cursors with the key, each is above the one before it, the first above `last`.
  abbrev pub Ascending : String → Option ℕ → List (String × ℕ) → Type 0
  Ascending key last [] = Unit {0}
  Ascending key last ((k, n) ∷ rest) =
      if str_eq k key then Above last n × Ascending key (some n) rest else Ascending key last rest

  after_last-Above :
      (last : Option ℕ) (c : Call) → overflows last c ≡ false → Above last (after_last ulids last c)
  after_last-Above none c calm = tt
  after_last-Above (some last) c calm =
      elim (Bool-cases (ltb (ulids.timestamp_ms last) (ulids.timestamp_ms c.drawn))) [
        | inl t ↦ rw t (ulids.lt-timestamp_ms last c.drawn (ltb→lt _ _ t))
        | inr f ↦ rw f (stepped (ulids.increment last) refl (rw f at calm))
      ]
    where
      stepped :
          (o : Option ℕ)
          → ulids.increment last ≡ o
          → is_none (ulids.increment last) ≡ false
          → last < or_redrawn (ulids.increment last) c.redrawn
      stepped none e h = let k : is_none none ≡ false = ap is_none (sym e) ∙ h in cc
      stepped (some n) e h = rw e (ulids.lt-increment last n e)

  both : (a b : Bool) → (not a && b) ≡ true → (a ≡ false) × (b ≡ true)
  both false b h = (refl, h)
  both true b h = cc

  -- In a run of calls for any streams, the cursors that one stream gets ascend strictly from its last one
  -- on, where no call overflows the random bits of a ULID.
  pub cursors-Ascending :
      (key : String) (cs : List Call) (g : CursorGenerator)
      → is_steady g cs ≡ true
      → Ascending key (g.last_ulids key) (cursors g cs)
  unfolding cursors is_steady next
  cursors-Ascending key [] g steady = tt
  cursors-Ascending key (c ∷ cs) g steady =
      let k0 = stream_key c.convo_id c.event_type in
      let (calm, later) =
        both (overflows (g.last_ulids k0) c) (is_steady (next ulids g c).1 cs) steady in
      let rest = cursors-Ascending key cs (next ulids g c).1 later in
      elim (Bool-cases (str_eq k0 key)) [
        | inl t ↦
            let e : k0 ≡ key = (eq_iff k0 key).0 t in
            let above : Above (g.last_ulids key) (next ulids g c).0 =
              subst (λ k. Above (g.last_ulids k) (next ulids g c).0) e
                (after_last-Above (g.last_ulids k0) c calm) in
            rw t (
              above,
              subst (λ o. Ascending key o (cursors (next ulids g c).1 cs)) (kept_mine t) rest,
            )
        | inr f ↦
            rw f (subst (λ o. Ascending key o (cursors (next ulids g c).1 cs)) (kept_other f) rest)
      ]
    where
      kept_mine :
          str_eq (stream_key c.convo_id c.event_type) key ≡ true
          → (next ulids g c).1.last_ulids key ≡ some (next ulids g c).0
      kept_mine t = rw t refl

      kept_other :
          str_eq (stream_key c.convo_id c.event_type) key ≡ false
          → (next ulids g c).1.last_ulids key ≡ g.last_ulids key
      kept_other f = rw f refl
