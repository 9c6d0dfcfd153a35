-- ===== src/Operation/Errors.antt =====
-- mapOperationWriteError and mapOperationCreateError (persistence/sqlite/operations.go).
use yorva.Prelude.{Bool, ◌&&◌, ◌||◌, [], ◌∷◌, Bytes, bytes, has_prefix, leb, if◌then◌else◌}
use yorva.Prelude.{◌+◌}
use yorva.Operation.Types.{OperationType}
use yorva.Operation.Constraints.{is_instance_mutation, is_runtime_mutation}

pub data OperationError : Type 0 where
  operation_not_found duplicate_idempotency active_install_exists : OperationError
  active_instance_mutation invalid_status_transition : OperationError
  progress_set progress_stored key_required identity_changed : OperationError
  write_failed : Bytes → OperationError

-- strings.ToLower; the driver's messages are ASCII
unfoldable pub to_lower : Bytes → Bytes
to_lower [] = []
to_lower (c ∷ s) = (if leb b'A' c && leb c b'Z' then c + 32 else c) ∷ to_lower s

-- strings.Contains
unfoldable pub contains : Bytes → Bytes → Bool
contains [] part = has_prefix [] part
contains (c ∷ s) part = has_prefix (c ∷ s) part || contains s part

-- The tests of mapOperationWriteError on the message in lower case.
unfoldable pub error_of_message : Bytes → OperationError
unfolding contains
error_of_message message =
    if contains message (bytes "operations_idempotency_key")
      || contains message (bytes "operations.idempotency_key")
    then OperationError.duplicate_idempotency
    else if contains message (bytes "operations_one_active_instance_mutation")
    then OperationError.active_instance_mutation
    else if contains message (bytes "operations_one_active_instance_lifecycle")
    then OperationError.active_instance_mutation
    else if contains message (bytes "operations_one_active_instance_runtime_mutation")
    then OperationError.active_instance_mutation
    else if contains message (bytes "operations_one_active_hermes_host_mutation")
        || contains message (bytes "operations_one_active_runtime_install")
        || contains message (bytes "operations.target_type")
          && contains message (bytes "operations.target_id")
        || contains message (bytes "operations.operation_type")
          && contains message (bytes "operations.target_id")
    then OperationError.active_install_exists
    else OperationError.write_failed message

-- mapOperationWriteError; what it wraps is the message of the driver
unfoldable pub map_operation_write_error : Bytes → OperationError
unfolding error_of_message to_lower
map_operation_write_error message = elim (error_of_message (to_lower message)) [
  | OperationError.write_failed lower ↦ OperationError.write_failed message
  | e ↦ e
]

create_error : OperationType → OperationError → OperationError
create_error t OperationError.active_install_exists =
    if is_instance_mutation t || is_runtime_mutation t
    then OperationError.active_instance_mutation
    else OperationError.active_install_exists
create_error t e = e

-- mapOperationCreateError: the types it lists are those of the two indexes on instances
unfoldable pub map_operation_create_error : Bytes → OperationType → OperationError
unfolding map_operation_write_error create_error
map_operation_create_error message t = create_error t (map_operation_write_error message)
