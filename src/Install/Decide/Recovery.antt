-- ===== src/Install/Decide/Recovery.antt =====
-- recovery_decide.go: DecideRecovery over all transactions, and decideTerminalWorld.
use yorva.Prelude.{
  Bool, false, not, ◌&&◌, ◌||◌, Option, none, some, List, [], ◌∷◌, Bytes, same, if◌then◌else◌,
}
use yorva.Install.Types.{
  is_committed, is_failed, TransactionState, nonterminal, Gate, Action, Code, TransactionView,
  ActivePointer, is_invalid, is_valid, complete, Observation, RecoveryDecision,
}
use yorva.Install.Decide.Outcome.{blocked, decision, has_failable, leftover_staging}
use yorva.Install.Decide.Single.{decide_one}

-- The test that pointerUnrelatedToHistory makes of each transaction.
unfoldable pub names_generation : Bytes → List TransactionView → Bool
names_generation generation_id [] = false
names_generation generation_id (txn ∷ txns) =
    same txn.generation_id generation_id || names_generation generation_id txns

-- pointerUnrelatedToHistory
unfoldable pub pointer_unrelated : ActivePointer → List TransactionView → Bool
pointer_unrelated p [] = false
pointer_unrelated p (txn ∷ txns) = is_valid p && not (names_generation p.generation_id (txn ∷ txns))

-- committedActive; which transaction it is does not matter to its callers.
unfoldable pub committed_active : ActivePointer → List TransactionView → Bool
committed_active p [] = false
committed_active p (txn ∷ txns) =
    is_committed txn.state && is_valid p && same p.generation_id txn.generation_id
    || committed_active p txns

-- failedButActive, likewise.
unfoldable pub failed_but_active : ActivePointer → List TransactionView → Bool
failed_but_active p [] = false
failed_but_active p (txn ∷ txns) =
    is_failed txn.state && is_valid p && same p.generation_id txn.generation_id
    || failed_but_active p txns

terminal_committed : Option Action → Observation → RecoveryDecision
terminal_committed (some action) obs = decision Gate.ready TransactionState.unset action
terminal_committed none obs =
    if not (complete obs.environment) && is_valid obs.active
    then decision Gate.ready TransactionState.unset Action.reconcile_env
    else decision Gate.ready TransactionState.unset Action.none

terminal_unknown : List Bytes → RecoveryDecision
terminal_unknown [] = decision Gate.ready TransactionState.unset Action.none
terminal_unknown (d ∷ ds) = decision Gate.ready TransactionState.unset Action.diagnose_retain

-- decideTerminalWorld
unfoldable pub decide_terminal : Observation → List TransactionView → RecoveryDecision
unfolding terminal_committed terminal_unknown leftover_staging
decide_terminal obs valid =
    if pointer_unrelated obs.active valid
    then decision Gate.ready TransactionState.unset Action.none
    else if failed_but_active obs.active valid
    then (if complete obs.environment
        then decision Gate.ready TransactionState.committed Action.commit
        else decision Gate.reconciling TransactionState.activating Action.reconcile_env)
    else if committed_active obs.active valid
    then terminal_committed (leftover_staging obs) obs
    else terminal_unknown obs.unknown_directories

add_valid :
    TransactionView
    → Option (List TransactionView × List TransactionView)
    → Option (List TransactionView × List TransactionView)
add_valid txn none = none
add_valid txn (some (valid, open_txns)) =
    some (txn ∷ valid, (if nonterminal txn.state then txn ∷ open_txns else open_txns))

-- The loop of DecideRecovery: the valid transactions and those of them that are not terminal;
-- `none` is the early return on a malformed record under a reserved name.
unfoldable pub classify :
    List TransactionView → Option (List TransactionView × List TransactionView)
unfolding add_valid
classify [] = some ([], [])
classify (txn ∷ txns) =
    let rest = classify txns in
    if not txn.valid
    then (if txn.occupies_reserved_name then none else rest)
    else add_valid txn rest

-- The branch on the number of transactions that are not terminal.
unfoldable pub decide_among :
    Observation → List TransactionView → List TransactionView → RecoveryDecision
unfolding decide_terminal decide_one blocked
decide_among obs valid [] = decide_terminal obs valid
decide_among obs valid (txn ∷ []) = decide_one obs txn
decide_among obs valid (txn ∷ txn' ∷ txns) =
    if has_failable (txn ∷ txn' ∷ txns)
    then record {
      gate = Gate.reconciling;
      next_state = TransactionState.unset;
      action = Action.fail_failable_extras;
      error_code = Code.interrupted;
    }
    else blocked

decide_classified :
    Option (List TransactionView × List TransactionView) → Observation → RecoveryDecision
unfolding blocked decide_among
decide_classified none obs = blocked
decide_classified (some (valid, open_txns)) obs = decide_among obs valid open_txns

-- DecideRecovery
unfoldable pub decide_recovery : Observation → RecoveryDecision
unfolding blocked decide_classified
decide_recovery obs =
    if is_invalid obs.active
    then blocked
    else if obs.reserved_id_collision
    then blocked
    else decide_classified (classify obs.transactions) obs
