-- ===== src/Install/Types.antt =====
-- types.go, errors.go and the record of transaction.go.
use yorva.Prelude.{Bool, true, false, not, ◌&&◌, List, Bytes, same}

-- TransactionState is a string in the source: `unset` is "", `other` a text outside the constants.
pub data TransactionState : Type 0 where
  unset created building sealed published activating committed failed : TransactionState
  other : Bytes → TransactionState

-- TransactionState.Terminal
abbrev pub terminal : TransactionState → Bool
terminal TransactionState.committed = true
terminal TransactionState.failed = true
terminal _ = false

abbrev pub is_committed : TransactionState → Bool
is_committed TransactionState.committed = true
is_committed _ = false

abbrev pub is_failed : TransactionState → Bool
is_failed TransactionState.failed = true
is_failed _ = false

-- TransactionState.Nonterminal
abbrev pub nonterminal : TransactionState → Bool
nonterminal TransactionState.unset = false
nonterminal s = not (terminal s)

-- `s == t` on states.
unfoldable pub state_eq : TransactionState → TransactionState → Bool
state_eq TransactionState.unset TransactionState.unset = true
state_eq TransactionState.created TransactionState.created = true
state_eq TransactionState.building TransactionState.building = true
state_eq TransactionState.sealed TransactionState.sealed = true
state_eq TransactionState.published TransactionState.published = true
state_eq TransactionState.activating TransactionState.activating = true
state_eq TransactionState.committed TransactionState.committed = true
state_eq TransactionState.failed TransactionState.failed = true
state_eq (TransactionState.other a) (TransactionState.other b) = same a b
state_eq _ _ = false

pub data Gate : Type 0 where
  ready reconciling blocked_unsafe : Gate

pub data Action : Type 0 where
  none fail_transaction move_staging_to_failed remove_empty_staging : Action
  remove_empty_generation persist_published persist_activating activate : Action
  reconcile_env commit gc_staging diagnose_retain block_unsafe fail_failable_extras : Action

-- The error codes; `unset` is "", `other` a text outside the constants.
pub data Code : Type 0 where
  unset interrupted blocked_unsafe not_ready inconsistent seal_invalid publish_conflict : Code
  other : Bytes → Code

-- `code == code`
unfoldable pub code_eq : Code → Code → Bool
code_eq Code.unset Code.unset = true
code_eq Code.interrupted Code.interrupted = true
code_eq Code.blocked_unsafe Code.blocked_unsafe = true
code_eq Code.not_ready Code.not_ready = true
code_eq Code.inconsistent Code.inconsistent = true
code_eq Code.seal_invalid Code.seal_invalid = true
code_eq Code.publish_conflict Code.publish_conflict = true
code_eq (Code.other a) (Code.other b) = same a b
code_eq _ _ = false

-- ActiveBeforeAbsent, ActiveBeforeValid, "" and any other text.
pub data BeforeKind : Type 0 where
  unset absent valid : BeforeKind
  other : Bytes → BeforeKind

pub record TransactionView : Type 0 where
  pub valid : Bool
  pub occupies_reserved_name : Bool
  pub id : Bytes
  pub state : TransactionState
  pub generation_id : Bytes
  pub active_before : Bytes
  pub active_before_digest : Bytes
  pub active_before_kind : BeforeKind
  pub staging_rel : Bytes
  pub generation_rel : Bytes

pub record TreeObservation : Type 0 where
  pub present : Bool
  pub empty : Bool
  pub is_sealed : Bool
  pub lineage_match : Bool
  pub lineage_id : Bytes

-- `unset` is the class "".
pub data ActiveClass : Type 0 where
  unset missing valid invalid : ActiveClass

pub record ActivePointer : Type 0 where
  pub class : ActiveClass
  pub present : Bool
  pub valid : Bool
  pub generation_id : Bytes
  pub seal_sha256 : Bytes
  pub manifest_sha256 : Bytes

missing_by : ActiveClass → ActivePointer → Bool
missing_by ActiveClass.unset p = not p.present && not p.valid
missing_by ActiveClass.missing p = true
missing_by _ p = false

-- ActivePointer.Missing
unfoldable pub is_missing : ActivePointer → Bool
unfolding missing_by
is_missing p = missing_by p.class p

invalid_by : ActiveClass → ActivePointer → Bool
invalid_by ActiveClass.unset p = p.present && not p.valid
invalid_by ActiveClass.invalid p = true
invalid_by _ p = false

-- ActivePointer.Invalid
unfoldable pub is_invalid : ActivePointer → Bool
unfolding invalid_by
is_invalid p = invalid_by p.class p

valid_by : ActiveClass → ActivePointer → Bool
valid_by ActiveClass.unset p = p.valid
valid_by ActiveClass.valid p = true
valid_by _ p = false

-- ActivePointer.IsValid
unfoldable pub is_valid : ActivePointer → Bool
unfolding valid_by
is_valid p = valid_by p.class p

pub record EnvironmentObservation : Type 0 where
  pub hermes_home_ok : Bool
  pub path_ok : Bool

-- EnvironmentObservation.Complete
abbrev pub complete : EnvironmentObservation → Bool
complete e = e.hermes_home_ok && e.path_ok

pub record Observation : Type 0 where
  pub transactions : List TransactionView
  pub staging : TreeObservation
  pub generation : TreeObservation
  pub unknown_directories : List Bytes
  pub reserved_id_collision : Bool
  pub active : ActivePointer
  pub environment : EnvironmentObservation

-- `unset` for NextState is "".
pub record RecoveryDecision : Type 0 where
  pub gate : Gate
  pub next_state : TransactionState
  pub action : Action
  pub error_code : Code
