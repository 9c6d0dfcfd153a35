-- ===== src/Operation/Queries.antt =====
-- The queries of persistence/sqlite/operations.go. A query selects rows and may order them; SQLite
-- leaves open how rows with the same created_at are ordered, and here they keep the table's order.
pub mod Found
pub mod Keyed
pub mod Latest
use yorva.Prelude.{
  ℕ, ℤ, pos, negsuc, is_positive, Bool, true, false, not, ◌&&◌, ◌||◌, Option, none, some, List, [],
  ◌∷◌, Bytes, same, is_empty, if◌then◌else◌, leb, ltb, select, take, Result, ok, err,
}
use yorva.Prelude.Results.{bind_result}
use yorva.Operation.Types.{OperationType, TargetType, target_type_eq, Status, Operation}
use yorva.Operation.Constraints.{
  is_active, is_host_mutation, is_instance, is_installation, is_instance_mutation,
  is_runtime_mutation,
}
use yorva.Operation.Errors.{OperationError}
use yorva.Operation.Table.{Rows}
use yorva.Operation.Clock.{sorts_before}

-- scanOperation on a row whose times parse
unfoldable pub scan_operation : Operation → Result OperationError Operation
scan_operation row = elim row.progress [
  | some p ↦ err OperationError.progress_stored
  | none ↦ ok row
]

-- `errors.Is(err, sql.ErrNoRows)` on the row that a query gives, and its scan.
unfoldable pub scan_row : List Operation → Result OperationError (Option Operation)
unfolding scan_operation
scan_row [] = ok none
scan_row (row ∷ rows) = bind_result (scan_operation row) (λ value. ok (some value))

unfoldable pub scan_rows : List Operation → Result OperationError (List Operation)
unfolding scan_operation
scan_rows [] = ok []
scan_rows (row ∷ rows) =
    bind_result (scan_operation row)
      (λ value. bind_result (scan_rows rows) (λ values. ok (value ∷ values)))

-- ORDER BY, by the test whether a row comes before another.
unfoldable pub insert_row :
    (Operation → Operation → Bool) → Operation → List Operation → List Operation
insert_row before row [] = row ∷ []
insert_row before row (r ∷ rows) =
    let rest = insert_row before row rows in if before r row then r ∷ rest else row ∷ r ∷ rows

unfoldable pub order_rows : (Operation → Operation → Bool) → List Operation → List Operation
unfolding insert_row
order_rows before [] = []
order_rows before (row ∷ rows) = insert_row before row (order_rows before rows)

-- `created_at ASC` and `created_at DESC`
abbrev pub oldest_first : Operation → Operation → Bool
oldest_first a b = sorts_before a.created_at b.created_at

abbrev pub newest_first : Operation → Operation → Bool
newest_first a b = sorts_before b.created_at a.created_at

abbrev pub is_kind_target : TargetType → Bytes → Operation → Bool
is_kind_target t id row = target_type_eq row.target_type t && same row.target_id id

abbrev pub is_install : OperationType → Bool
is_install OperationType.runtime_install = true
is_install _ = false

abbrev pub is_prerequisites : OperationType → Bool
is_prerequisites OperationType.hermes_prerequisites = true
is_prerequisites _ = false

abbrev pub is_validation : OperationType → Bool
is_validation OperationType.model_validate = true
is_validation _ = false

-- `operation_type IN ('instance.start', 'instance.stop', 'instance.restart')`
abbrev pub is_lifecycle : OperationType → Bool
is_lifecycle OperationType.instance_start = true
is_lifecycle OperationType.instance_stop = true
is_lifecycle OperationType.instance_restart = true
is_lifecycle _ = false

-- The types of ActiveInstanceMutation.
abbrev pub is_asked_mutation : OperationType → Bool
is_asked_mutation OperationType.instance_create = true
is_asked_mutation OperationType.instance_delete = true
is_asked_mutation OperationType.model_profile_apply = true
is_asked_mutation OperationType.backup_create = true
is_asked_mutation OperationType.backup_restore = true
is_asked_mutation OperationType.runtime_upgrade = true
is_asked_mutation OperationType.runtime_rollback = true
is_asked_mutation _ = false

-- `status IN ('SUCCEEDED', 'FAILED', 'CANCELLED')`
abbrev pub is_completed : Status → Bool
is_completed Status.succeeded = true
is_completed Status.failed = true
is_completed Status.cancelled = true
is_completed _ = false

-- GetOperation
unfoldable pub get_operation : Bytes → Rows → Result OperationError Operation
unfolding scan_row
get_operation id rows =
    bind_result (scan_row (select (λ row. same row.id id) rows)) (λ found. elim found [
      | none ↦ err OperationError.operation_not_found
      | some value ↦ ok value
    ])

-- GetOperationByIdempotencyKey
unfoldable pub get_operation_by_idempotency_key :
    Bytes → Rows → Result OperationError (Option Operation)
unfolding scan_row
get_operation_by_idempotency_key key rows =
    scan_row (select (λ row. same row.idempotency_key key) rows)

-- ActiveRuntimeInstall
unfoldable pub active_runtime_install : Bytes → Rows → Result OperationError (Option Operation)
unfolding scan_row
active_runtime_install kind rows = scan_row (
    select
      (λ row.
        is_install row.operation_type
        && is_kind_target TargetType.runtime_kind kind row
        && is_active row.status)
      rows)

-- ActiveInstanceMutation
unfoldable pub active_instance_mutation : Bytes → Rows → Result OperationError (Option Operation)
unfolding scan_row order_rows
active_instance_mutation installation rows = scan_row (
    order_rows oldest_first (
      select
        (λ row.
          is_kind_target TargetType.runtime_installation installation row
          && is_active row.status
          && is_asked_mutation row.operation_type)
        rows))

-- ActiveInstanceLifecycle
unfoldable pub active_instance_lifecycle : Bytes → Rows → Result OperationError (Option Operation)
unfolding scan_row
active_instance_lifecycle instance_id rows = scan_row (
    select
      (λ row.
        is_kind_target TargetType.instance_target instance_id row
        && is_active row.status
        && is_lifecycle row.operation_type)
      rows)

-- ActiveInstanceRuntimeMutation; the types are those of the index
unfoldable pub active_instance_runtime_mutation :
    Bytes → Rows → Result OperationError (Option Operation)
unfolding scan_row order_rows
active_instance_runtime_mutation instance_id rows = scan_row (
    order_rows oldest_first (
      select
        (λ row.
          is_kind_target TargetType.instance_target instance_id row
          && is_active row.status
          && is_runtime_mutation row.operation_type)
        rows))

-- ActiveModelValidation
unfoldable pub active_model_validation : Bytes → Rows → Result OperationError (Option Operation)
unfolding scan_row order_rows
active_model_validation instance_id rows = scan_row (
    order_rows newest_first (
      select
        (λ row.
          is_validation row.operation_type
          && is_kind_target TargetType.instance_target instance_id row
          && is_active row.status)
        rows))

-- LatestCompletedModelValidation
unfoldable pub latest_completed_model_validation :
    Bytes → Rows → Result OperationError (Option Operation)
unfolding scan_row order_rows
latest_completed_model_validation instance_id rows = scan_row (
    order_rows newest_first (
      select
        (λ row.
          is_validation row.operation_type
          && is_kind_target TargetType.instance_target instance_id row
          && is_completed row.status)
        rows))

-- ActiveHermesPrerequisite
unfoldable pub active_hermes_prerequisite : Bytes → Rows → Result OperationError (Option Operation)
unfolding scan_row
active_hermes_prerequisite kind rows = scan_row (
    select
      (λ row.
        is_prerequisites row.operation_type
        && is_kind_target TargetType.runtime_kind kind row
        && is_active row.status)
      rows)

-- ActiveHermesHostMutation
unfoldable pub active_hermes_host_mutation : Bytes → Rows → Result OperationError (Option Operation)
unfolding scan_row
active_hermes_host_mutation kind rows = scan_row (
    select
      (λ row.
        is_kind_target TargetType.runtime_kind kind row
        && is_active row.status
        && is_host_mutation row.operation_type)
      rows)

abbrev pub is_install_of : Bytes → Operation → Bool
is_install_of kind row =
    is_install row.operation_type && is_kind_target TargetType.runtime_kind kind row

-- LatestRuntimeInstall
unfoldable pub latest_runtime_install : Bytes → Rows → Result OperationError (Option Operation)
unfolding scan_row order_rows
latest_runtime_install kind rows =
    scan_row (order_rows newest_first (select (is_install_of kind) rows))

-- PreviousRuntimeInstall
unfoldable pub previous_runtime_install :
    Bytes → Bytes → Rows → Result OperationError (Option Operation)
unfolding scan_row order_rows
previous_runtime_install kind exclude_id rows = scan_row (
    order_rows newest_first
      (select (λ row. is_install_of kind row && not (same row.id exclude_id)) rows))
