-- ===== src/App/Node.antt =====
-- The state that RuntimeInstall works on, what it is configured with, and the writes of
-- runtime_install_events.go, each with the event that it publishes.
pub mod Stored
use yorva.Prelude.{
  ℕ, Bool, true, false, Option, none, some, List, [], Bytes, bytes, Result, ok, err,
}
use yorva.Install.Types.{Gate, Code}
use yorva.Install.Records.{Err}
use yorva.Install.Disk.{Disk}
use yorva.Events.Broker.{Broker, publish}
use yorva.Events.Operations.{OperationPayload, new_operation_event, type_for_committed_operation}
use yorva.Operation.Types.{Status, Operation}
use yorva.Operation.Errors.{OperationError}
use yorva.Operation.Lists.{type_text}
use yorva.Operation.Table.{Rows, Report, create_operation, update_operation}

-- `rooted`: there is a managed root, for which NewStore succeeds. `applier`: the pin and the version
-- that the HostApplier expects. `report`, `installs` and `encode` stand for the driver, the table of
-- instances and json.Marshal; `lock` is what AcquireLock returns, `now` the time.
pub record Settings : Type 0 where
  pub rooted : Bool
  pub applier : Option (Bytes × Bytes)
  pub report : Report
  pub installs : Bytes → Option Bytes
  pub encode : OperationPayload → Bytes
  pub lock : Result Err (Unit {0})
  pub now : ℕ

-- A nil GateHolder is a gate that is ready and stays so. `workers` has the operations that a
-- goroutine works on.
pub record Node : Type 0 where
  pub disk : Disk
  pub rows : Rows
  pub gate : Option Gate
  pub broker : Option Broker
  pub workers : List Bytes

-- InstallRejection, and the other errors that the service returns.
pub data InstallError : Type 0 where
  rejection : Bytes → Bool → Bytes → InstallError
  store : OperationError → InstallError
  install : Err → InstallError
  invalid_idempotency_key : InstallError
  discovery : Bytes → InstallError

-- The texts of the statuses and of the codes.
unfoldable pub status_text : Status → Bytes
status_text Status.pending = bytes "PENDING"
status_text Status.running = bytes "RUNNING"
status_text Status.succeeded = bytes "SUCCEEDED"
status_text Status.failed = bytes "FAILED"
status_text Status.cancelled = bytes "CANCELLED"
status_text (Status.other s) = s

unfoldable pub code_text : Code → Bytes
code_text Code.unset = []
code_text Code.interrupted = bytes "OPERATION_INTERRUPTED"
code_text Code.blocked_unsafe = bytes "INSTALL_BLOCKED_UNSAFE"
code_text Code.not_ready = bytes "INSTALL_NOT_READY"
code_text Code.inconsistent = bytes "INSTALL_STATE_INCONSISTENT"
code_text Code.seal_invalid = bytes "INSTALL_SEAL_INVALID"
code_text Code.publish_conflict = bytes "INSTALL_PUBLISH_CONFLICT"
code_text (Code.other s) = s

-- The payload of emitOperation.
unfoldable pub payload_of : Operation → OperationPayload
unfolding type_text status_text
payload_of op = record {
  operation_id = op.id;
  operation_type = type_text op.operation_type;
  status = status_text op.status;
  stage = op.stage;
  error_code = op.error_code;
  correlation_id = op.correlation_id;
}

emit_to : Settings → Bytes → Operation → Option Broker → Option Broker
unfolding payload_of new_operation_event
emit_to s event_type next none = none
emit_to s event_type next (some broker) =
    some
      (publish s.now (new_operation_event s.encode s.now event_type (payload_of next) s.now) broker)

-- emitOperation; the type of the event is never empty
unfoldable pub emit_operation : Settings → Bytes → Operation → Bool → Node → Node
unfolding emit_to status_text type_for_committed_operation
emit_operation s previous_status next created node = record node {
  broker =
      emit_to s (type_for_committed_operation created previous_status (status_text next.status))
        next node.broker;
}

unfoldable pub after_create :
    Settings
    → Operation
    → Node
    → Result OperationError Rows
    → Result OperationError (Unit {0}) × Node
unfolding emit_operation
after_create s created node (ok rows) =
    (ok tt, emit_operation s [] created true (record node { rows = rows }))
after_create s created node (err e) = (err e, node)

-- persistCreate
unfoldable pub persist_create :
    Settings → Operation → Node → Result OperationError (Unit {0}) × Node
unfolding after_create
persist_create s created node =
    after_create s created node (create_operation s.report s.installs created node.rows)

unfoldable pub after_update :
    Settings
    → Operation
    → Operation
    → Node
    → Result OperationError Rows
    → Result OperationError (Unit {0}) × Node
unfolding emit_operation
after_update s current next node (ok rows) =
    (ok tt, emit_operation s (status_text current.status) next false (record node { rows = rows }))
after_update s current next node (err e) = (err e, node)

-- persistUpdate
unfoldable pub persist_update :
    Settings → Operation → Operation → Node → Result OperationError (Unit {0}) × Node
unfolding after_update
persist_update s current next node =
    after_update s current next node (update_operation s.report current next node.rows)
