-- ===== src/Federation/Transfer/Pick.antt =====
-- The member whose DS is picked as the new sequencer.
use mls_ds.Prelude.{String, ◌≡◌, true, false, ◌&&◌, Option, none, some, List, All, Any, str_eq}
use mls_ds.Did.{canonical_did}
use mls_ds.Store.{Store, Member}
use mls_ds.Federation.Transfer.{before}

-- Of the conversation's rows, none stands strictly before `m`.
abbrev pub IsFirst : String → Member → List Member → Type 0
IsFirst convo m ms = All (λ x. (str_eq x.convo_id convo && before x m) ≡ false) ms

abbrev pub Picks : String → Option Member → List Member → Type 0
Picks convo none ms = All (λ x. str_eq x.convo_id convo ≡ false) ms
Picks convo (some m) ms = (str_eq m.convo_id convo ≡ true) × IsFirst convo m ms

-- The picked row is one of the table's.
abbrev Stands : Option Member → List Member → Type 0
Stands none ms = Unit
Stands (some m) ms = Any (λ x. x ≡ m) ms

-- The DS in the row's column, without a fragment; this DS where the column is NULL.
abbrev pub IsHome : String → Option String → String → Type 0
IsHome self_did none ds = ds ≡ self_did
IsHome self_did (some d) ds = ds ≡ canonical_did d

-- The pick for a conversation: nothing only where it has no row, else the DS of a first one.
abbrev pub IsPick : String → String → List Member → Option String → Type 0
IsPick self_did convo ms none = All (λ x. str_eq x.convo_id convo ≡ false) ms
IsPick self_did convo ms (some ds) =
    (m : Member) × Any (λ x. x ≡ m) ms
    × (m.convo_id ≡ convo)
    × IsFirst convo m ms
    × IsHome self_did m.ds_did ds
