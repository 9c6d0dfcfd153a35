-- ===== src/App/Worker/Failing.antt =====
-- What the worker does where something failed (runtime_install_run.go).
use yorva.Prelude.{ℕ, Bool, true, Option, none, some, Bytes, bytes, if◌then◌else◌, Result, ok, err}
use yorva.Operation.Types.{Status, Operation}
use yorva.Operation.Status.{is_terminal}
use yorva.Operation.Errors.{OperationError}
use yorva.Operation.Queries.{get_operation}
use yorva.App.Node.{Settings, Node, persist_update}
use yorva.App.Transactions.{filesystem_owns_operation}
use yorva.App.Project.{project_operation}
use yorva.App.Cancel.{cancelled}
use yorva.App.Worker.Codes.{HostError, install_error_code_or, is_retryable_install}

-- The operation that `fail` writes.
unfoldable pub failed_with : ℕ → Bytes → Bool → Operation → Operation
failed_with now code retryable latest = record latest {
  status = Status.failed;
  error_code = code;
  retryable = retryable;
  completed_at = some now;
  updated_at = now;
}

unfoldable pub fail_latest : Settings → Bytes → Bool → Node → Result OperationError Operation → Node
unfolding failed_with project_operation
fail_latest s code retryable node (err e) = node
fail_latest s code retryable node (ok latest) =
    if filesystem_owns_operation s latest node.disk
    then (project_operation s latest node).1
    else if is_terminal latest.status
    then node
    else (persist_update s latest (failed_with s.now code retryable latest) node).1

-- The function `fail` of execute
unfoldable pub fail : Settings → Bytes → Bytes → Bool → Node → Node
unfolding fail_latest
fail s id code retryable node = fail_latest s code retryable node (get_operation id node.rows)

-- The branch for a cancelled context.
unfoldable pub cancel_latest : Settings → Node → Result OperationError Operation → Node
unfolding cancelled
cancel_latest s node (err e) = node
cancel_latest s node (ok latest) =
    if is_terminal latest.status
    then node
    else (persist_update s latest (cancelled s.now latest) node).1

-- `getErr == nil && s.filesystemOwnsOperation(latest)`, and the projection if so.
unfoldable pub owned_latest : Settings → Node → Result OperationError Operation → Option Node
unfolding project_operation
owned_latest s node (err e) = none
owned_latest s node (ok latest) =
    if filesystem_owns_operation s latest node.disk
    then some (project_operation s latest node).1
    else none

abbrev pub projected_or : Node → Option Node → Node
projected_or otherwise (some projected) = projected
projected_or otherwise none = otherwise

-- What is done where Apply failed and the transaction does not own the operation.
unfoldable pub apply_failed_open : Settings → Bytes → HostError → Node → Node
unfolding cancel_latest fail
apply_failed_open s id e node =
    if e.deadline_exceeded
    then fail s id (bytes "RUNTIME_INSTALL_TIMEOUT") true node
    else if e.canceled
    then cancel_latest s node (get_operation id node.rows)
    else fail s id (install_error_code_or e (bytes "RUNTIME_INSTALL_STAGE_FAILED"))
        (is_retryable_install e) node

-- What is done where Apply failed.
unfoldable pub apply_failed : Settings → Bytes → HostError → Node → Node
unfolding owned_latest apply_failed_open
apply_failed s id e node =
    projected_or (apply_failed_open s id e node) (owned_latest s node (get_operation id node.rows))

-- What is done where the discovery does not confirm the installation.
unfoldable pub postcheck_failed : Settings → Bytes → Node → Node
unfolding owned_latest fail
postcheck_failed s id node =
    projected_or (fail s id (bytes "RUNTIME_INSTALL_POSTCHECK_FAILED") true node)
      (owned_latest s node (get_operation id node.rows))
