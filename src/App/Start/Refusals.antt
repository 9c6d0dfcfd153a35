-- ===== src/App/Start/Refusals.antt =====
-- The refusals and the replays of Start: the gate, a key that was used, an active installation
-- (runtime_install.go).
use yorva.Prelude.{
  Bool, true, false, not, ◌&&◌, ◌||◌, Option, none, some, [], Bytes, bytes, same, if◌then◌else◌,
  Result, ok, err,
}
use yorva.Install.Types.{Gate, is_invalid}
use yorva.Install.Seal.{read_active}
use yorva.Operation.Types.{OperationType, TargetType, target_type_eq, Status, Operation}
use yorva.Operation.Errors.{OperationError}
use yorva.Operation.Table.{Rows}
use yorva.Operation.Queries.{get_operation_by_idempotency_key, active_hermes_host_mutation}
use yorva.Operation.Lists.{type_text}
use yorva.App.Node.{Settings, Node, InstallError}
use yorva.App.Preflight.{DiscoveryState}
use yorva.App.Transactions.{Random, not_ready, blocked}

pub record InstallStartResult : Type 0 where
  pub operation : Operation
  pub created : Bool

-- What Detect returns: its errors are passed on where the call was cancelled or the kind is not
-- known.
pub data Detected : Type 0 where
  found : DiscoveryState → Detected
  passed_on : Bytes → Detected
  detect_failed : Detected

-- The identifiers that newOperationID and newCorrelationID give.
pub record Fresh : Type 0 where
  pub id : Bytes
  pub correlation_id : Bytes
  pub random : Random

-- Operation{}
abbrev pub no_operation : Operation
no_operation = record {
  id = [];
  operation_type = OperationType.other [];
  target_type = TargetType.other [];
  target_id = [];
  status = Status.other [];
  stage = [];
  progress = none;
  message = [];
  error_code = [];
  error_message = [];
  retryable = false;
  idempotency_key = [];
  correlation_id = [];
  source_pin = [];
  ownership_nonce = [];
  transaction_id = [];
  created_at = 0;
  started_at = none;
  completed_at = none;
  updated_at = 0;
}

-- The switch on s.gate.Get().
unfoldable pub gate_error : Option Gate → Option InstallError
gate_error none = none
gate_error (some Gate.ready) = none
gate_error (some Gate.reconciling) = some not_ready
gate_error (some Gate.blocked_unsafe) = some blocked

unfoldable pub close_gate : Option Gate → Option Gate
close_gate none = none
close_gate (some gate) = some Gate.blocked_unsafe

-- rejectInstallGate
unfoldable pub reject_install_gate : Settings → Node → Option InstallError × Node
unfolding gate_error close_gate
reject_install_gate s node =
    if s.rooted && is_invalid (read_active node.disk)
    then (some blocked, record node { gate = close_gate node.gate })
    else (gate_error node.gate, node)

abbrev pub conflict : InstallError
conflict = InstallError.rejection (bytes "IDEMPOTENCY_KEY_CONFLICT") false []

-- The existing operation belongs to another request.
unfoldable pub other_request : Operation → OperationType → Bytes → Bool
unfolding type_text
other_request existing want_type target_id =
    not (same (type_text existing.operation_type) (type_text want_type))
    || not (target_type_eq existing.target_type TargetType.runtime_kind)
    || not (same existing.target_id target_id)

-- replayIdempotent
unfoldable pub replay_idempotent :
    Operation → OperationType → Bytes → Result InstallError InstallStartResult
unfolding other_request
replay_idempotent existing want_type target_id =
    if other_request existing want_type target_id
    then err conflict
    else ok (record { operation = existing; created = false })

abbrev pub in_progress : Bytes
in_progress = bytes "RUNTIME_INSTALL_IN_PROGRESS"

unfoldable pub active_error : Result OperationError (Option Operation) → Option InstallError
active_error (err e) = some (InstallError.store e)
active_error (ok none) = none
active_error (ok (some active)) = some (InstallError.rejection in_progress true active.id)

-- rejectActiveHermesMutation
unfoldable pub reject_active_hermes_mutation : Bytes → Rows → Option InstallError
unfolding active_error
reject_active_hermes_mutation kind rows = active_error (active_hermes_host_mutation kind rows)

unfoldable pub normalized : InstallError → Result OperationError (Option Operation) → InstallError
normalized e (ok (some active)) = InstallError.rejection in_progress true active.id
normalized e _ = e

-- normalizeCreateConflict on an error
unfoldable pub normalize_create_conflict : Bytes → InstallError → Rows → InstallError
unfolding normalized
normalize_create_conflict kind e rows = normalized e (active_hermes_host_mutation kind rows)

unfoldable pub replayed_or :
    OperationType
    → Bytes
    → Result InstallError InstallStartResult
    → Result OperationError (Option Operation)
    → Result InstallError InstallStartResult
unfolding replay_idempotent
replayed_or want_type target_id otherwise (err e) = err (InstallError.store e)
replayed_or want_type target_id otherwise (ok none) = otherwise
replayed_or want_type target_id otherwise (ok (some existing)) =
    replay_idempotent existing want_type target_id

unfoldable pub is_in_progress : InstallError → Bool
is_in_progress (InstallError.rejection code retryable id) = same code in_progress
is_in_progress _ = false

-- replayIfCurrentKey
unfoldable pub replay_if_current_key :
    Bytes → OperationType → Bytes → InstallError → Rows → Result InstallError InstallStartResult
unfolding is_in_progress replayed_or
replay_if_current_key key want_type target_id e rows =
    if not (is_in_progress e)
    then err e
    else replayed_or want_type target_id (err e) (get_operation_by_idempotency_key key rows)

unfoldable pub is_duplicate : OperationError → Bool
is_duplicate OperationError.duplicate_idempotency = true
is_duplicate _ = false

-- recoverCreate
unfoldable pub recover_create :
    Operation → OperationError → Rows → Result InstallError InstallStartResult
unfolding replayed_or is_duplicate normalize_create_conflict
recover_create intended e rows =
    replayed_or intended.operation_type intended.target_id
      (if is_duplicate e
        then err conflict
        else err (normalize_create_conflict intended.target_id (InstallError.store e) rows))
      (get_operation_by_idempotency_key intended.idempotency_key rows)
