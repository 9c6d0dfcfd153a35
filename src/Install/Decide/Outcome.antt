-- ===== src/Install/Decide/Outcome.antt =====
-- recovery_decide.go: the decisions that are returned as literals, and the tests on an
-- observation that the decisions share.
use yorva.Prelude.{
  Bool, true, false, not, ◌&&◌, ◌||◌, Option, none, some, List, [], ◌∷◌, Bytes, same, is_empty,
  if◌then◌else◌,
}
use yorva.Install.Types.{
  TransactionState, Gate, Action, Code, BeforeKind, TransactionView, ActivePointer, is_missing,
  is_invalid, is_valid, Observation, RecoveryDecision,
}

unfoldable pub fail_txn : Code → Action → RecoveryDecision
fail_txn code action = record {
  gate = Gate.ready;
  next_state = TransactionState.failed;
  action = action;
  error_code = code;
}

unfoldable pub fail_closed : Code → RecoveryDecision
fail_closed code = record {
  gate = Gate.blocked_unsafe;
  next_state = TransactionState.unset;
  action = Action.block_unsafe;
  error_code = code;
}

-- The reason that `blocked` is given in the source is not used there.
unfoldable pub blocked : RecoveryDecision
blocked = record {
  gate = Gate.blocked_unsafe;
  next_state = TransactionState.unset;
  action = Action.block_unsafe;
  error_code = Code.blocked_unsafe;
}

-- The literals RecoveryDecision{Gate, NextState, Action} with no ErrorCode.
abbrev pub decision : Gate → TransactionState → Action → RecoveryDecision
decision g s a = record { gate = g; next_state = s; action = a; error_code = Code.unset }

abbrev pub failable : TransactionState → Bool
failable TransactionState.created = true
failable TransactionState.building = true
failable _ = false

-- hasFailableNonterminal
unfoldable pub has_failable : List TransactionView → Bool
has_failable [] = false
has_failable (txn ∷ txns) = failable txn.state || has_failable txns

-- activeNames
unfoldable pub active_names : ActivePointer → Bytes → Bool
active_names p generation_id =
    is_valid p && not (is_empty generation_id) && same p.generation_id generation_id

-- The kind of predecessor that a record states; records of the first schema state none.
unfoldable pub before_kind : BeforeKind → Bytes → BeforeKind
before_kind BeforeKind.unset before =
    if is_empty before then BeforeKind.absent else BeforeKind.valid
before_kind kind before = kind

predecessor_by : BeforeKind → ActivePointer → Bytes → Bytes → Bool
predecessor_by BeforeKind.absent p before digest = is_missing p
predecessor_by BeforeKind.valid p before digest =
    if not (is_valid p) || not (same p.generation_id before)
    then false
    else not (not (is_empty digest) && not (same p.seal_sha256 digest))
predecessor_by _ p before digest = false

-- expectedPredecessorOrAbsent
unfoldable pub expected_predecessor : ActivePointer → TransactionView → Bool
unfolding predecessor_by before_kind
expected_predecessor p txn =
    if is_invalid p
    then false
    else predecessor_by (before_kind txn.active_before_kind txn.active_before) p txn.active_before
        txn.active_before_digest

-- leftoverStaging
unfoldable pub leftover_staging : Observation → Option Action
leftover_staging obs =
    if not obs.staging.present
      || not obs.generation.present
      || not obs.generation.is_sealed
      || not obs.generation.lineage_match
    then none
    else if obs.staging.empty
    then some Action.remove_empty_staging
    else if obs.staging.lineage_match
    then some Action.gc_staging
    else none
