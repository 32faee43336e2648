-- ===== src/Federation/Sequencer/Tests.antt =====
-- Two callers that submit a commit for the same epoch, and one that comes later.
use mls_ds.Prelude.{
  suc, ℕ, ◌≡◌, refl, false, none, some, List, [], ◌∷◌, arith, str_eq, if◌then◌else◌,
}
use mls_ds.Sql.{World, After}
use mls_ds.Store.{Store, Conversation}
use mls_ds.Federation.Signature.Example.{plain}
use mls_ds.Federation.Sequencer.{Sequencer, conflict, must_follow, submit_commit}
use mls_ds.Prelude.{◌+◌, ◌%◌, ◌^◌, ◌==◌}
use mls_ds.Prelude.Results.{ok}
use mls_ds.Federation.Sequencer.Answer.{ruled, submit_commit-ruled}
use mls_ds.Federation.Sequencer.Outcome.{Ruling, submit_commit-Ruling}
use mls_ds.Federation.Sequencer.Once.{Submission, submit_all, IsWonOnce, submit_all-IsWonOnce}

abbrev room : Conversation
room = record {
  current_epoch = 4;
  sequencer_ds = none;
  updated_at = 0;
  group_info = none;
  group_info_epoch = none;
}

abbrev world : World Store
world = record {
  store = record {
    conversations = λ id. if str_eq "room" id then some room else none;
    members = [];
    messages = [];
    welcomes = [];
  };
  fails = λ _. false;
  step = 0;
  fresh = λ _. "id";
  drawn = 0;
}

abbrev sequencer : Sequencer plain
sequencer = record {
  self_did = "did:web:ds";
  receipt_signer = some (record { signing_key = 5; sequencer_did = 100 ∷ [] });
}

abbrev rival : ℕ → ℕ → Submission
rival at current = record {
  now = at;
  convo_id = "room";
  current_epoch = current;
  proposed_epoch = suc current;
  commit_ciphertext = at ∷ [];
}

abbrev submissions : List Submission
submissions = rival 10 4 ∷ rival 11 4 ∷ rival 12 5 ∷ []

submit_commit-Ruling_example :
    After
      (Ruling plain sequencer 10 "room" 4 5 (9 ∷ []) world.store)
      (λ _ w'. w'.store ≡ world.store)
      (submit_commit plain sequencer 10 "room" 4 5 (9 ∷ []) world)
submit_commit-Ruling_example = submit_commit-Ruling plain sequencer 10 "room" 4 5 (9 ∷ []) world

submit_all-IsWonOnce_example :
    let r = submit_all plain sequencer submissions world in
    IsWonOnce plain sequencer "room" 4 r.0 r.1.store
submit_all-IsWonOnce_example =
    submit_all-IsWonOnce plain sequencer "room" submissions world 4 refl (omega arith)

submit_commit-ruled_example :
    (submit_commit plain sequencer 10 "room" 4 5 (9 ∷ []) world).0
    ≡ ok (
        if 5 == (4 + 1) % 2 ^ 32
        then ruled plain sequencer 10 "room" 4 5 (9 ∷ []) (some room)
        else conflict 4 (must_follow 5 4))
submit_commit-ruled_example =
    submit_commit-ruled plain sequencer 10 "room" 4 5 (9 ∷ []) world (λ n. refl)
