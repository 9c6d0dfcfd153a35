-- ===== src/Operation/Table.antt =====
-- CreateOperation, UpdateOperation and InterruptActiveInstalls (persistence/sqlite/operations.go) on
-- the table of operations. What the driver reports of the constraints that a statement breaks, the
-- table of instances and the clock are parameters.
pub mod Rows
pub mod Effective
pub mod Interrupt
pub mod Swap
pub mod Invariant
use yorva.Prelude.{
  ℕ, ◌+◌, Bool, true, false, not, ◌&&◌, ◌||◌, Option, none, some, List, [], ◌∷◌, Bytes, bytes, same,
  is_empty, if◌then◌else◌, ◌==◌, select, Result, ok, err,
}
use yorva.Prelude.Results.{bind_result}
use yorva.Operation.Types.{OperationType, Status, status_eq, Operation}
use yorva.Operation.Status.{valid_status_change}
use yorva.Operation.Constraints.{
  Constraint, breaks, breaks_on_insert, constraints, is_active, is_host_mutation,
}
use yorva.Operation.Errors.{OperationError, map_operation_write_error, map_operation_create_error}

abbrev pub Rows : Type 0
Rows = List Operation

abbrev pub Report : Type 0
Report = Constraint → List Constraint → Bytes

-- The constraints and triggers that an insertion breaks.
unfoldable pub broken_on_insert : (Bytes → Option Bytes) → Operation → Rows → List Constraint
broken_on_insert installs value rows =
    select (λ c. breaks_on_insert installs c value rows) constraints

-- The INSERT of CreateOperation
unfoldable pub insert_effect :
    Report → OperationType → Rows → List Constraint → Result OperationError Rows
insert_effect report t rows [] = ok rows
insert_effect report t rows (c ∷ cs) = err (map_operation_create_error (report c cs) t)

-- CreateOperation
unfoldable pub create_operation :
    Report → (Bytes → Option Bytes) → Operation → Rows → Result OperationError Rows
unfolding insert_effect
create_operation report installs value rows = elim value.progress [
  | some p ↦ err OperationError.progress_set
  | none ↦
      if is_empty value.idempotency_key
      then err OperationError.key_required
      else insert_effect report value.operation_type (value ∷ rows)
          (broken_on_insert installs value rows)
]

-- `WHERE id = ? AND status = ?`
unfoldable pub matches : Operation → Operation → Bool
matches current row = same row.id current.id && status_eq row.status current.status

-- The columns that the UPDATE sets.
unfoldable pub updated : Operation → Operation → Operation
updated next row = record row {
  status = next.status;
  stage = next.stage;
  progress = none;
  message = next.message;
  error_code = next.error_code;
  error_message = next.error_message;
  retryable = next.retryable;
  started_at = next.started_at;
  completed_at = next.completed_at;
  updated_at = next.updated_at;
}

unfoldable pub update_row : Operation → Operation → Operation → Operation
unfolding matches updated
update_row current next row = if matches current row then updated next row else row

unfoldable pub update_rows : Operation → Operation → Rows → Rows
unfolding update_row
update_rows current next [] = []
update_rows current next (row ∷ rows) = update_row current next row ∷ update_rows current next rows

-- RowsAffected
unfoldable pub affected : Operation → Rows → ℕ
unfolding matches
affected current [] = 0
affected current (row ∷ rows) =
    let rest = affected current rows in if matches current row then rest + 1 else rest

-- The constraints that rows break.
unfoldable pub broken : Rows → List Constraint
broken rows = select (λ c. breaks c rows) constraints

-- What becomes of the rows that the UPDATE makes, by the constraints they break and the number of
-- rows it affected: to affect none is no error of the driver.
unfoldable pub update_effect : Report → ℕ → Rows → List Constraint → Result OperationError Rows
update_effect report count rows [] =
    if count == 1 then ok rows else err OperationError.invalid_status_transition
update_effect report count rows (c ∷ cs) = err (map_operation_write_error (report c cs))

-- The statement of UpdateOperation and the tests on its result.
unfoldable pub update_statement : Report → Operation → Operation → Rows → Result OperationError Rows
unfolding update_rows affected update_effect
update_statement report current next rows =
    let rows' = update_rows current next rows in
    update_effect report (affected current rows) rows' (broken rows')

-- UpdateOperation
unfoldable pub update_operation : Report → Operation → Operation → Rows → Result OperationError Rows
unfolding update_statement
update_operation report current next rows =
    if not (same current.id next.id)
    then err OperationError.identity_changed
    else if not (status_eq current.status next.status)
        && not (valid_status_change current.status next.status)
    then err OperationError.invalid_status_transition
    else elim next.progress [
      | some p ↦ err OperationError.progress_set
      | none ↦ update_statement report current next rows
    ]

-- The operation that InterruptActiveInstalls writes.
unfoldable pub interrupted : ℕ → Operation → Operation
interrupted now current = record current {
  status = Status.failed;
  error_code = bytes "OPERATION_INTERRUPTED";
  error_message = [];
  retryable = true;
  completed_at = some now;
  updated_at = now;
}

abbrev pub is_active_install : Operation → Bool
is_active_install op = is_host_mutation op.operation_type && is_active op.status

-- The loop over the operations that the query gave.
unfoldable pub interrupt_each : Report → ℕ → List Operation → Rows → Result OperationError Rows
unfolding interrupted
interrupt_each report now [] rows = ok rows
interrupt_each report now (current ∷ rest) rows =
    bind_result (update_operation report current (interrupted now current) rows)
      (λ rows'. interrupt_each report now rest rows')

-- InterruptActiveInstalls: the table after it. The query has no order; it is taken to be that of
-- the table.
unfoldable pub interrupt_active_installs : Report → ℕ → Rows → Result OperationError Rows
unfolding interrupt_each
interrupt_active_installs report now rows =
    interrupt_each report now (select is_active_install rows) rows
