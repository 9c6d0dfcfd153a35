-- ===== src/App/Start.antt =====
-- Start (runtime_install.go). What Detect finds and the random identifiers are arguments; the source
-- of random numbers does not fail. The log is left out.
pub mod Refusals
pub mod Created
pub mod Replay
pub mod Closed
use yorva.Prelude.{
  ℕ, Bool, true, false, not, ◌&&◌, ◌||◌, Option, none, some, List, [], ◌∷◌, Bytes, bytes, same,
  is_empty, if◌then◌else◌, Result, ok, err,
}
use yorva.Install.Types.{Gate, is_invalid}
use yorva.Install.Records.{InstallTransaction}
use yorva.Install.Seal.{read_active}
use yorva.Install.Disk.{Disk}
use yorva.Operation.Types.{OperationType, TargetType, target_type_eq, Status, Operation}
use yorva.Operation.Errors.{OperationError}
use yorva.Operation.Table.{Rows}
use yorva.Operation.Queries.{
  get_operation_by_idempotency_key, active_hermes_host_mutation, latest_runtime_install,
}
use yorva.Operation.Lists.{type_text}
use yorva.App.Node.{Settings, Node, InstallError, persist_create}
use yorva.App.Preflight.{
  DiscoveryState, PreflightDecision, decide_install_preflight, validate_idempotency_key,
}
use yorva.App.Transactions.{
  Random, not_ready, blocked, persist_created_transaction, mark_transaction_failed,
}
use yorva.App.Start.Refusals.{
  InstallStartResult, Detected, Fresh, no_operation, gate_error, close_gate, reject_install_gate,
  conflict, other_request, replay_idempotent, in_progress, active_error,
  reject_active_hermes_mutation, normalized, normalize_create_conflict, replayed_or, is_in_progress,
  replay_if_current_key, is_duplicate, recover_create,
}

abbrev pub expected_pin : Settings → Bytes
expected_pin s = elim s.applier [ none ↦ [] | some (pin, version) ↦ pin ]

-- The operation that Start creates, before its transaction.
unfoldable pub new_install : Settings → Fresh → Bytes → Bytes → Operation
new_install s fresh kind key = record no_operation {
  id = fresh.id;
  operation_type = OperationType.runtime_install;
  target_type = TargetType.runtime_kind;
  target_id = kind;
  status = Status.pending;
  stage = bytes "preflight";
  idempotency_key = key;
  correlation_id = fresh.correlation_id;
  created_at = s.now;
  updated_at = s.now;
  source_pin = expected_pin s;
}

abbrev has_applier : Settings → Bool
has_applier s = elim s.applier [ none ↦ false | some expected ↦ true ]

-- bindWorker, where there is an applier to run
unfoldable pub bind_worker : Settings → Bytes → Node → Node
bind_worker s id node = if has_applier s then record node { workers = id ∷ node.workers } else node

unfoldable start_created :
    Settings
    → Option InstallTransaction
    → Operation
    → Result OperationError (Unit {0}) × Node
    → Result InstallError InstallStartResult × Node
unfolding bind_worker recover_create mark_transaction_failed
start_created s txn created (ok u, node) =
    (ok (record { operation = created; created = true }), bind_worker s created.id node)
start_created s txn created (err e, node) = (
  recover_create created e node.rows,
  record node { disk = mark_transaction_failed s txn node.disk },
)

-- `if txn.ID != "" { created.TransactionID = txn.ID }`
abbrev pub linked : Option InstallTransaction → Operation → Operation
linked none op = op
linked (some txn) op = if is_empty txn.id then op else record op { transaction_id = txn.id }

unfoldable start_with :
    Settings
    → Operation
    → Node
    → Result InstallError (Option InstallTransaction) × Disk
    → Result InstallError InstallStartResult × Node
unfolding start_created
start_with s created node (err e, d) = (err e, record node { disk = d })
start_with s created node (ok txn, d) =
    start_created s txn (linked txn created)
      (persist_create s (linked txn created) (record node { disk = d }))

-- The part of Start behind its checks.
unfoldable pub create_install :
    Settings → Fresh → Bytes → Bytes → Node → Result InstallError InstallStartResult × Node
unfolding start_with new_install
create_install s fresh kind key node =
    start_with s (new_install s fresh kind key) node
      (persist_created_transaction s fresh.random (new_install s fresh kind key) node.disk)

abbrev latest_or_zero : Option Operation → Operation
latest_or_zero none = no_operation
latest_or_zero (some op) = op

unfoldable decide_on :
    Settings
    → Fresh
    → Bytes
    → Bytes
    → Node
    → PreflightDecision
    → Result InstallError InstallStartResult × Node
unfolding create_install
decide_on s fresh kind key node decision =
    if not decision.allow
    then (err (InstallError.rejection decision.code decision.retryable []), node)
    else create_install s fresh kind key node

unfoldable after_latest :
    Settings
    → Fresh
    → Bytes
    → Bytes
    → Node
    → DiscoveryState
    → Result OperationError (Option Operation)
    → Result InstallError InstallStartResult × Node
unfolding decide_on
after_latest s fresh kind key node state (err e) = (err (InstallError.store e), node)
after_latest s fresh kind key node state (ok latest) =
    decide_on s fresh kind key node (decide_install_preflight state (latest_or_zero latest))

unfoldable after_detect :
    Settings
    → Fresh
    → Bytes
    → Bytes
    → Node
    → Detected
    → Result InstallError InstallStartResult × Node
unfolding after_latest
after_detect s fresh kind key node (Detected.passed_on e) = (err (InstallError.discovery e), node)
after_detect s fresh kind key node Detected.detect_failed =
    (err (InstallError.rejection (bytes "RUNTIME_DISCOVERY_TIMEOUT") true []), node)
after_detect s fresh kind key node (Detected.found state) =
    after_latest s fresh kind key node state (latest_runtime_install kind node.rows)

unfoldable after_active :
    Settings
    → Fresh
    → Bytes
    → Bytes
    → Detected
    → Node
    → Option InstallError
    → Result InstallError InstallStartResult × Node
unfolding after_detect replay_if_current_key
after_active s fresh kind key detected node (some e) =
    (replay_if_current_key key OperationType.runtime_install kind e node.rows, node)
after_active s fresh kind key detected node none = after_detect s fresh kind key node detected

unfoldable after_key :
    Settings
    → Fresh
    → Bytes
    → Bytes
    → Detected
    → Node
    → Result OperationError (Option Operation)
    → Result InstallError InstallStartResult × Node
unfolding after_active replay_idempotent
after_key s fresh kind key detected node (err e) = (err (InstallError.store e), node)
after_key s fresh kind key detected node (ok (some existing)) =
    (replay_idempotent existing OperationType.runtime_install kind, node)
after_key s fresh kind key detected node (ok none) =
    after_active s fresh kind key detected node (reject_active_hermes_mutation kind node.rows)

unfoldable after_check :
    Settings
    → Fresh
    → Bytes
    → Bytes
    → Detected
    → Node
    → Result InstallError (Unit {0})
    → Result InstallError InstallStartResult × Node
unfolding after_key
after_check s fresh kind key detected node (err e) = (err e, node)
after_check s fresh kind key detected node (ok u) =
    after_key s fresh kind key detected node (get_operation_by_idempotency_key key node.rows)

unfoldable after_gate :
    Settings
    → Fresh
    → Bytes
    → Bytes
    → Detected
    → Option InstallError × Node
    → Result InstallError InstallStartResult × Node
unfolding after_check
after_gate s fresh kind key detected (some e, node) = (err e, node)
after_gate s fresh kind key detected (none, node) =
    after_check s fresh kind key detected node (validate_idempotency_key key)

-- RuntimeInstall.Start
unfoldable pub start :
    Settings
    → Fresh
    → Bytes
    → Bytes
    → Detected
    → Node
    → Result InstallError InstallStartResult × Node
unfolding after_gate
start s fresh kind key detected node =
    after_gate s fresh kind key detected (reject_install_gate s node)
