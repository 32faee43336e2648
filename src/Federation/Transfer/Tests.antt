-- ===== src/Federation/Transfer/Tests.antt =====
-- Two DSs, each with its own database, and a conversation that one hands to the other.
use mls_ds.Prelude.{
  String, ◌≡◌, refl, true, false, Option, none, some, [], ◌∷◌, str_eq, if◌then◌else◌,
}
use mls_ds.Prelude.Results.{ok}
use mls_ds.Sql.{World, After, query}
use mls_ds.Store.{Store, Member}
use mls_ds.Did.{canonical_did, dids_equivalent}
use mls_ds.Federation.Sequencer.{is_ours, sequencer_column}
use mls_ds.Federation.Transfer.{
  transferred, accepted, SequencerTransfer, first_member, pick_new_sequencer, initiate_transfer,
  accept_transfer, assume_sequencer_role,
}
use mls_ds.Federation.Transfer.Handoff.{handoff-is_ours}
use mls_ds.Federation.Transfer.Failover.{Assumed, assume_sequencer_role-Assumed}

abbrev local : Member
local = record {
  convo_id = "room";
  member_did = "did:u#1";
  user_did = none;
  joined_at = 3;
  left_at = none;
  is_admin = true;
  needs_rejoin = false;
  unread_count = 0;
  ds_did = some "did:web:b";
}

-- A database in which `did:web:a` is the sequencer.
abbrev database_of : Option String → World Store
database_of sequencer = record {
  store = record {
    conversations = λ id.
        if str_eq "room" id
        then some (record {
          current_epoch = 4;
          sequencer_ds = sequencer;
          updated_at = 0;
          group_info = none;
          group_info_epoch = none;
        })
        else none;
    members = local ∷ [];
    messages = [];
    welcomes = [];
  };
  fails = λ _. false;
  step = 0;
  fresh = λ _. "id";
  drawn = 0;
}

abbrev at_a : World Store
at_a = database_of none

abbrev at_b : World Store
at_b = database_of (some "did:web:a")

abbrev ds_a : SequencerTransfer
ds_a = record { self_did = "did:web:a" }

abbrev ds_b : SequencerTransfer
ds_b = record { self_did = "did:web:b" }

initiates : (initiate_transfer ds_a "room" "did:web:b" at_a).0 ≡ ok (transferred "room" "did:web:b")
unfolding initiate_transfer query
initiates = refl

accepts : (accept_transfer ds_b "room" "did:web:a" at_b).0 ≡ ok (accepted "room")
unfolding accept_transfer query dids_equivalent canonical_did
accepts = refl

apart : dids_equivalent "did:web:b" "did:web:a" ≡ false
unfolding dids_equivalent canonical_did
apart = refl

handoff-is_ours_example :
    let sa = (initiate_transfer ds_a "room" "did:web:b" at_a).1.store in
    let sb = (accept_transfer ds_b "room" "did:web:a" at_b).1.store in
    (is_ours "did:web:a" (sequencer_column (sa.conversations "room")) ≡ false)
    × (is_ours "did:web:b" (sequencer_column (sb.conversations "room")) ≡ true)
handoff-is_ours_example =
    handoff-is_ours "did:web:a" "did:web:b" "room" at_a at_b (transferred "room" "did:web:b")
      (accepted "room") initiates accepts apart

assume_sequencer_role-Assumed_example :
    After
      (Assumed ds_b "room" "did:web:a" at_b)
      (λ _ w'. w'.store ≡ at_b.store)
      (assume_sequencer_role ds_b "room" "did:web:a" at_b)
assume_sequencer_role-Assumed_example = assume_sequencer_role-Assumed ds_b "room" "did:web:a" at_b

abbrev remote : Member
remote = record local {
  member_did = "did:v#1";
  joined_at = 1;
  is_admin = false;
  ds_did = some "did:web:c#x";
}

admin_first :
    (pick_new_sequencer ds_b "room"
      (record at_b { store = record at_b.store { members = remote ∷ local ∷ [] } })).0
    ≡ ok (some "did:web:b")
unfolding pick_new_sequencer query first_member canonical_did
admin_first = refl
