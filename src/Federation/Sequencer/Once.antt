-- ===== src/Federation/Sequencer/Once.antt =====
-- Any sequence of submissions to a sequencer, from whichever callers, each with its own idea of the
-- current epoch: every epoch has one winner.
use mls_ds.Prelude.{
  suc, ℕ, ◌+◌, ◌%◌, ◌^◌, ◌≤◌, ◌<◌, String, ◌≡◌, refl, ap, sym, ◌∙◌, Bool, true, false, ◌&&◌, Option,
  some, List, [], ◌∷◌, length, ◌==◌, leb, ltb, eq_iff, ◌⊎◌, inl, inr, if◌then◌else◌, arith, str_eq,
}
use mls_ds.Prelude.Results.{Result, ok, err}
use mls_ds.Sql.{World, After}
use mls_ds.Store.{Store}
use mls_ds.Federation.Receipt.{SequencerReceipt}
use mls_ds.Federation.Signature.{Es256}
use mls_ds.Federation.Sequencer.{
  SqlError, CommitResult, accepted, conflict, actual_epoch, Sequencer, submit_commit,
}
use mls_ds.Federation.Sequencer.Outcome.{Advances, Ruling, submit_commit-Ruling}

-- A call of `submit_commit`.
pub record Submission : Type 0 where
  pub now : ℕ
  pub convo_id : String
  pub current_epoch : ℕ
  pub proposed_epoch : ℕ
  pub commit_ciphertext : List ℕ

abbrev pub Answered : Type 0
Answered = Submission × Result SqlError CommitResult

-- The answer is an acceptance at epoch `n` of the conversation.
abbrev pub is_won : String → ℕ → Answered → Bool
is_won convo n (a, ok (accepted m receipt)) = str_eq a.convo_id convo && (m == n)
is_won convo n (a, ok (conflict m reason)) = false
is_won convo n (a, err x) = false

unfoldable pub wins : String → ℕ → List Answered → ℕ
wins convo n [] = 0
wins convo n (a ∷ xs) = (if is_won convo n a then 1 else 0) + wins convo n xs

module _ (e : Es256) (q : Sequencer e) where
  unfoldable pub submit_all : List Submission → World Store → List Answered × World Store
  submit_all [] w = ([], w)
  submit_all (a ∷ xs) w =
      let r =
        submit_commit e q a.now a.convo_id a.current_epoch a.proposed_epoch a.commit_ciphertext w in
      let rest = submit_all xs r.1 in ((a, r.0) ∷ rest.0, rest.1)

  module _ (convo : String) where
    abbrev AtEpoch : Store → ℕ → Type 0
    AtEpoch s n = actual_epoch (s.conversations convo) ≡ some n

    -- The epoch goes from `first` to `last`, and each of the epochs on the way was won once, no other
    -- was.
    pub record IsWonOnce (first : ℕ) (xs : List Answered) (s : Store) : Type 0 where
      pub last : ℕ
      pub ends : AtEpoch s last
      pub grows : first ≤ last
      pub once : (n : ℕ) → wins convo n xs ≡ (if ltb first n && leb n last then 1 else 0)

    -- One answer: the epoch moves on by one where it is an acceptance for this conversation.
    abbrev Moves : ℕ → Answered → Store → Type 0
    Moves first a s =
        (AtEpoch s first × ((n : ℕ) → is_won convo n a ≡ false))
        ⊎ (AtEpoch s (suc first) × ((n : ℕ) → is_won convo n a ≡ (suc first == n)))

    moved :
        (a : Submission) (s s' : Store) (m first : ℕ) (receipt : Option SequencerReceipt)
        → Advances a.convo_id a.current_epoch m s s'
        → m ≡ (a.current_epoch + 1) % 2 ^ 32
        → AtEpoch s first
        → first + 1 < 2 ^ 32
        → (b : Bool) → str_eq a.convo_id convo ≡ b
        → Moves first (a, ok (accepted m receipt)) s'
    moved a s s' m first receipt adv follows at small true same =
        let ec : a.convo_id ≡ convo = (eq_iff a.convo_id convo).0 same in
        let er : actual_epoch (s.conversations convo) ≡ some adv.row.current_epoch =
          ap (λ c. actual_epoch (s.conversations c)) (sym ec) ∙ ap actual_epoch adv.found in
        let ef : adv.row.current_epoch ≡ first = cc in
        let em : m ≡ suc first = omega (arith, follows, adv.was, ef, small) in
        inr (
          ap (λ (t : Store). actual_epoch (t.conversations convo)) adv.tables
              ∙ rw same (ap some em),
          λ n. rw (same, em) refl,
        )
    moved a s s' m first receipt adv follows at small false same = inl (
      ap (λ (t : Store). actual_epoch (t.conversations convo)) adv.tables ∙ rw same at,
      λ n. rw same refl,
    )

    answer-Moves :
        (a : Submission) (s : Store) (first : ℕ) (r : Result SqlError CommitResult × World Store)
        → After
            (Ruling e q a.now a.convo_id a.current_epoch a.proposed_epoch a.commit_ciphertext s)
            (λ _ w'. w'.store ≡ s)
            r
        → AtEpoch s first
        → first + 1 < 2 ^ 32
        → Moves first (a, r.0) r.1.store
    answer-Moves a s first (ok (accepted m receipt), w) (adv, em, follows, rc) at small =
        moved a s w.store m first receipt adv (em ∙ follows) at small (str_eq a.convo_id convo) refl
    answer-Moves a s first (ok (conflict m reason), w) same at small =
        inl (ap (λ (t : Store). actual_epoch (t.conversations convo)) same ∙ at, λ n. refl)
    answer-Moves a s first (err x, w) same at small =
        inl (ap (λ (t : Store). actual_epoch (t.conversations convo)) same ∙ at, λ n. refl)

    join :
        (first : ℕ) (a : Answered) (xs : List Answered) (s s' : Store)
        → Moves first a s
        → ((f : ℕ) → (first ≤ f) × (f ≤ suc first) → AtEpoch s f → IsWonOnce f xs s')
        → IsWonOnce first (a ∷ xs) s'
    unfolding wins
    join first a xs s s' (inl (at, never)) rest =
        let r = rest first (omega arith, omega arith) at in
        record {
          last = r.last;
          ends = r.ends;
          grows = r.grows;
          once = λ n. rw (never n) (omega (arith, r.once n));
        }
    join first a xs s s' (inr (at, exactly)) rest =
        let r = rest (suc first) (omega arith, omega arith) at in
        record {
          last = r.last;
          ends = r.ends;
          grows = omega (arith, r.grows);
          once = λ n. let o = r.once n in let g = r.grows in rw (exactly n, o) (ground arith);
        }

    -- From an epoch that does not overflow within these submissions, the answers that accept a commit
    -- of the conversation are for the epochs after the first up to the last one in its row, and each
    -- of these epochs is accepted once.
    pub submit_all-IsWonOnce :
        (xs : List Submission) (w : World Store) (first : ℕ)
        → AtEpoch w.store first
        → first + length xs < 2 ^ 32
        → let r = submit_all xs w in IsWonOnce first r.0 r.1.store
    unfolding submit_all wins
    submit_all-IsWonOnce [] w first at small = record {
      last = first;
      ends = at;
      grows = omega arith;
      once = λ n. ground arith;
    }
    submit_all-IsWonOnce (a ∷ xs) w first at small =
        let r =
          submit_commit e q a.now a.convo_id a.current_epoch a.proposed_epoch a.commit_ciphertext
            w in
        let all = submit_all xs r.1 in
        join first (a, r.0) all.0 r.1.store all.1.store
          (answer-Moves a w.store first r
            (submit_commit-Ruling e q a.now a.convo_id a.current_epoch a.proposed_epoch
              a.commit_ciphertext w)
            at (omega arith))
          (λ f near at'. submit_all-IsWonOnce xs r.1 f at' (omega (arith, near.1)))
