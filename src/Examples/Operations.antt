-- ===== src/Examples/Operations.antt =====
-- The statements on operations at a sample table.
use yorva.Prelude.{
  ℕ, true, false, none, some, refl, ◌≡◌, List, [], ◌∷◌, Bytes, bytes, err, arith, Option, leb,
  length, ◌||◌, if◌then◌else◌,
}
use yorva.Operation.Types.{OperationType, TargetType, Status, Operation, status_eq}
use yorva.Operation.Status.{valid_status_change, valid_transition, is_terminal}
use yorva.Operation.Status.Machine.{
  stays, moves, Run-ends, allowed_changes, lists_change, valid_status_change_lem,
}
use yorva.Operation.Constraints.{Constraint}
use yorva.Operation.Errors.{OperationError}
use yorva.Operation.Table.{Rows, update_operation, update_rows, create_operation}
use yorva.Operation.Table.Rows.{IsConsistent}
use yorva.Operation.Table.Swap.{second_update_fails}
use yorva.Operation.Table.Invariant.{Reachable, empty, created, reachable_invariant, Exclusive}
use yorva.Operation.Table.Interrupt.{interrupt_row}

abbrev install : Operation
install = record {
  id = bytes "op_1";
  operation_type = OperationType.runtime_install;
  target_type = TargetType.runtime_kind;
  target_id = bytes "hermes";
  status = Status.pending;
  stage = bytes "preflight";
  progress = none;
  message = [];
  error_code = [];
  error_message = [];
  retryable = false;
  idempotency_key = bytes "k1";
  correlation_id = [];
  source_pin = [];
  ownership_nonce = [];
  transaction_id = [];
  created_at = 1;
  started_at = none;
  completed_at = none;
  updated_at = 1;
}

abbrev upgrade : Operation
upgrade = record install {
  id = bytes "op_2";
  operation_type = OperationType.runtime_upgrade;
  target_type = TargetType.runtime_installation;
  target_id = bytes "inst";
  idempotency_key = bytes "k2";
}

abbrev report : Constraint → List Constraint → Bytes
report c cs = bytes "constraint failed"

abbrev installs : Bytes → Option Bytes
installs instance = none

abbrev table : Rows
table = upgrade ∷ install ∷ []

abbrev started : Operation
started = record install { status = Status.running; started_at = some 2; updated_at = 2 }

table_reachable : Reachable report installs table
unfolding create_operation yorva.Operation.Table.broken_on_insert
    yorva.Operation.Constraints.breaks_on_insert yorva.Operation.Constraints.clash
    yorva.Prelude.same
table_reachable = created upgrade (created install empty refl) refl

reachable_invariant_example : IsConsistent table × Exclusive installs table
reachable_invariant_example = reachable_invariant table_reachable

second_update_fails_example :
    update_operation report install (interrupt_row 9 install) (upgrade ∷ started ∷ [])
    ≡ err OperationError.invalid_status_transition
unfolding update_operation yorva.Prelude.same status_eq valid_status_change
    yorva.Operation.Table.broken yorva.Operation.Constraints.breaks
    yorva.Operation.Constraints.clash yorva.Operation.Table.interrupted
second_update_fails_example =
    second_update_fails report install started (interrupt_row 9 install) table
      (upgrade ∷ started ∷ []) refl refl refl refl

Run-ends_example :
    (leb (length (Status.running ∷ Status.succeeded ∷ [])) 2 ≡ true)
    × (Status.pending ≡ Status.running
        → leb (length (Status.running ∷ Status.succeeded ∷ [])) 1 ≡ true)
    × (is_terminal Status.pending ≡ true → Status.running ∷ Status.succeeded ∷ [] ≡ [])
unfolding valid_transition
Run-ends_example =
    Run-ends (moves {s = Status.pending} Status.running refl (moves Status.succeeded refl stays))

valid_status_change_lem_example : valid_status_change Status.failed Status.running ≡ (
    status_eq Status.failed Status.running
    || lists_change Status.failed Status.running allowed_changes)
valid_status_change_lem_example = valid_status_change_lem Status.failed Status.running
