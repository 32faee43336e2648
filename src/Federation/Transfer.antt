-- ===== src/Federation/Transfer.antt =====
-- federation/transfer.rs: handing the role of the sequencer to another DS, and taking it over.
pub mod Handoff
pub mod Failover
pub mod Pick
mod Tests
use mls_ds.Prelude.{
  ℕ, String, Bool, true, false, not, ◌&&◌, ◌||◌, Option, none, some, List, [], ◌∷◌, if◌then◌else◌,
  str_eq, exists, leb, ltb,
}
use mls_ds.Prelude.Results.{Result, ok, err}
use mls_ds.Sql.{Exec, query, pure, throw, lift, ◌>>=◌, ◌>>◌}
use mls_ds.Store.{Store, Conversation, Member, put_conversation, is_active, is_value}
use mls_ds.Did.{canonical_did, dids_equivalent}
use mls_ds.Federation.Sequencer.{select, sequencer_column}

pub data TransferResult : Type 0 where
  transferred : String → String → TransferResult
  accepted : String → TransferResult

pub data TransferError : Type 0 where
  conversation_not_found : String → TransferError
  not_current_sequencer : String → String → TransferError
  not_authorized : String → String → TransferError
  database : TransferError

pub record SequencerTransfer : Type 0 where
  pub self_did : String

-- Another DS than `did` is the sequencer.
abbrev pub check_holder : String → String → Option (Option String) → Result TransferError (Unit {0})
check_holder convo did none = err (conversation_not_found convo)
check_holder convo did (some none) = ok tt
check_holder convo did (some (some ds)) =
    if dids_equivalent ds did then ok tt else err (not_current_sequencer convo ds)

abbrev set_row : String → String → Store → Option Conversation → Store
set_row convo did s none = s
set_row convo did s (some c) = put_conversation s convo (record c { sequencer_ds = some did })

-- UPDATE conversations SET sequencer_ds = $2 WHERE id = $1
unfoldable pub set_sequencer : String → String → Store → Store
set_sequencer convo did s = set_row convo did s (s.conversations convo)

unfoldable pub initiate_transfer :
    SequencerTransfer → String → String → Exec Store TransferError TransferResult
initiate_transfer t convo new_sequencer_did = do
  current ← query database (select convo sequencer_column)
  lift (check_holder convo t.self_did current)
  query database (λ s. some (tt, set_sequencer convo new_sequencer_did s))
  pure (transferred convo new_sequencer_did)

-- `_current_epoch` is not used.
unfoldable pub accept_transfer :
    SequencerTransfer → String → String → Exec Store TransferError TransferResult
accept_transfer t convo from_sequencer_did = do
  row ← query database (select convo sequencer_column)
  lift (check_holder convo from_sequencer_did row)
  query database (λ s. some (tt, set_sequencer convo t.self_did s))
  pure (accepted convo)

-- `COALESCE(split_part(ds_did, '#', 1), $2)`
abbrev pub home_of : String → Option String → String
home_of self_did none = self_did
home_of self_did (some ds) = canonical_did ds

abbrev pub is_local : String → String → Member → Bool
is_local self_did convo m = is_active convo m && str_eq (home_of self_did m.ds_did) self_did

abbrev takes_over : Option String → String → Bool
takes_over none expected = true
takes_over (some ds) expected = str_eq ds expected

abbrev take_row : String → String → String → Store → Option Conversation → Bool × Store
take_row convo self_did expected s none = (false, s)
take_row convo self_did expected s (some c) =
    if takes_over c.sequencer_ds expected
    then (true, put_conversation s convo (record c { sequencer_ds = some self_did }))
    else (false, s)

-- UPDATE … WHERE id = $1 AND (sequencer_ds = $3 OR sequencer_ds IS NULL)
unfoldable pub cas_sequencer : String → String → String → Store → Bool × Store
cas_sequencer convo self_did expected s = take_row convo self_did expected s (s.conversations convo)

abbrev pub after_take : String → Bool → Exec Store TransferError TransferResult
after_take convo true = pure (accepted convo)
after_take convo false = throw (not_current_sequencer convo "unknown (changed during failover)")

abbrev pub when_local :
    SequencerTransfer → String → String → Bool → Exec Store TransferError TransferResult
when_local t convo expected false = throw (not_authorized convo t.self_did)
when_local t convo expected true = do
  taken ← query database (λ s. some (cas_sequencer convo t.self_did expected s))
  after_take convo taken

abbrev pub unless_ours :
    SequencerTransfer → String → String → Bool → Exec Store TransferError TransferResult
unless_ours t convo expected true = pure (accepted convo)
unless_ours t convo expected false = do
  has_members ← query database (λ s. some (exists (is_local t.self_did convo) s.members, s))
  when_local t convo expected has_members

abbrev pub assume_row :
    SequencerTransfer
    → String
    → String
    → Option (Option String)
    → Exec Store TransferError TransferResult
assume_row t convo expected none = throw (conversation_not_found convo)
assume_row t convo expected (some none) = unless_ours t convo expected false
assume_row t convo expected (some (some ds)) =
    unless_ours t convo expected (dids_equivalent ds t.self_did)

unfoldable pub assume_sequencer_role :
    SequencerTransfer → String → String → Exec Store TransferError TransferResult
assume_sequencer_role t convo expected_sequencer = do
  row ← query database (select convo sequencer_column)
  assume_row t convo expected_sequencer row

-- `ORDER BY is_admin DESC, joined_at ASC`: the first comes strictly before the second.
abbrev pub before : Member → Member → Bool
before a b =
    (a.is_admin && not b.is_admin)
    || (not (b.is_admin && not a.is_admin) && ltb a.joined_at b.joined_at)

abbrev pub sooner : Member → Option Member → Member
sooner m none = m
sooner m (some best) = if before m best then m else best

-- The first row of the order; among rows that it does not tell apart, the oldest, which the database
-- does not promise.
unfoldable pub first_member : String → List Member → Option Member
first_member convo [] = none
first_member convo (m ∷ ms) =
    let best = first_member convo ms in
    if str_eq m.convo_id convo then some (sooner m best) else best

abbrev pub home_column : String → Option Member → Option String
home_column self_did none = none
home_column self_did (some m) = some (home_of self_did m.ds_did)

unfoldable pub pick_new_sequencer :
    SequencerTransfer → String → Exec Store TransferError (Option String)
pick_new_sequencer t convo =
    query database (λ s. some (home_column t.self_did (first_member convo s.members), s))
