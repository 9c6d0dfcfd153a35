-- ===== src/App/Cancel.antt =====
-- Get, List and Cancel (runtime_install.go). What a worker does while Cancel waits for it, or until
-- Cancel gives up, is an argument.
pub mod Committed
pub mod Open
use yorva.Prelude.{
  ℕ, ℤ, Bool, true, false, not, ◌&&◌, ◌||◌, Option, none, some, List, [], ◌∷◌, Bytes, bytes, same,
  if◌then◌else◌, Result, ok, err,
}
use yorva.Operation.Types.{TargetType, Status, status_eq, Operation}
use yorva.Operation.Status.{is_terminal}
use yorva.Operation.Errors.{OperationError}
use yorva.Operation.Queries.{get_operation}
use yorva.Operation.Lists.{list_operations}
use yorva.App.Node.{Settings, Node, InstallError, persist_update}
use yorva.App.Transactions.{filesystem_owns_operation}
use yorva.App.Project.{project_operation}

as_ok : Operation × Node → Result InstallError Operation × Node
as_ok (op, node) = (ok op, node)

got : Settings → Result OperationError Operation → Node → Result InstallError Operation × Node
unfolding as_ok project_operation
got s (err e) node = (err (InstallError.store e), node)
got s (ok value) node = as_ok (project_operation s value node)

-- RuntimeInstall.Get
unfoldable pub get : Settings → Bytes → Node → Result InstallError Operation × Node
unfolding got
get s id node = got s (get_operation id node.rows) node

-- RuntimeInstall.List
unfoldable pub list : TargetType → Bytes → ℤ → Node → Result OperationError (List Operation)
list t id limit node = list_operations t id limit node.rows

unfoldable pub not_cancellable : InstallError
not_cancellable = InstallError.rejection (bytes "OPERATION_NOT_CANCELLABLE") false []

-- The operation that Cancel writes.
unfoldable pub cancelled : ℕ → Operation → Operation
cancelled now current = record current {
  status = Status.cancelled;
  error_code = bytes "RUNTIME_INSTALL_CANCELLED";
  retryable = true;
  completed_at = some now;
  updated_at = now;
}

-- What Cancel returns after it waited.
after_wait : Result OperationError Operation → Result InstallError Operation
unfolding not_cancellable
after_wait (err e) = err (InstallError.store e)
after_wait (ok latest) =
    if status_eq latest.status Status.cancelled
    then ok latest
    else if is_terminal latest.status
    then err not_cancellable
    else ok latest

-- What it returns where its update failed.
cancelled_anyway : OperationError → Result OperationError Operation → Result InstallError Operation
cancelled_anyway e (err f) = err (InstallError.store e)
cancelled_anyway e (ok latest) =
    if status_eq latest.status Status.cancelled then ok latest else err (InstallError.store e)

after_cancel :
    Bytes
    → Operation
    → Result OperationError (Unit {0}) × Node
    → Result InstallError Operation × Node
unfolding cancelled_anyway
after_cancel id next (ok u, node) = (ok next, node)
after_cancel id next (err e, node) = (cancelled_anyway e (get_operation id node.rows), node)

unfoldable pub any_of : Bytes → List Bytes → Bool
any_of id [] = false
any_of id (w ∷ ws) = same w id || any_of id ws

-- Cancel without a worker, by the operation that it found.
unfoldable pub cancel_now :
    Settings → Bytes → Operation → Node → Result InstallError Operation × Node
unfolding after_cancel cancelled
cancel_now s id current node =
    after_cancel id (cancelled s.now current)
      (persist_update s current (cancelled s.now current) node)

unfoldable cancel_found :
    Settings
    → (Node → Node)
    → Bytes
    → Node
    → Result OperationError Operation
    → Result InstallError Operation × Node
unfolding as_ok after_wait any_of cancel_now project_operation not_cancellable
cancel_found s wait id node (err e) = (err (InstallError.store e), node)
cancel_found s wait id node (ok current) =
    if filesystem_owns_operation s current node.disk
    then as_ok (project_operation s current node)
    else if is_terminal current.status
    then (err not_cancellable, node)
    else if any_of id node.workers
    then (after_wait (get_operation id (wait node).rows), wait node)
    else cancel_now s id current node

-- RuntimeInstall.Cancel
unfoldable pub cancel :
    Settings → (Node → Node) → Bytes → Node → Result InstallError Operation × Node
unfolding cancel_found
cancel s wait id node = cancel_found s wait id node (get_operation id node.rows)
