-- ===== src/App/Project.antt =====
-- projectOperation (runtime_install.go): an operation catches up with its transaction on disk.
pub mod Committed
pub mod Durable
pub mod Unchanged
use yorva.Prelude.{
  ℕ, Bool, true, false, not, ◌&&◌, ◌||◌, Option, none, some, List, [], ◌∷◌, Bytes, bytes, same,
  is_empty, if◌then◌else◌, Result, ok, err,
}
use yorva.Install.Types.{TransactionState, Code, is_failed}
use yorva.Install.Records.{InstallTransaction}
use yorva.Operation.Types.{Status, status_eq, TargetType, Operation}
use yorva.Operation.Status.{is_terminal}
use yorva.Operation.Errors.{OperationError}
use yorva.Operation.Queries.{is_install}
use yorva.Operation.Lists.{list_operations}
use yorva.App.Node.{Settings, Node, InstallError, code_text, persist_update}
use yorva.App.Transactions.{load_linked_transaction}
use yorva.Prelude.{pos}

abbrev pub cleanup : Bytes
cleanup = bytes "cleanup"

stage_of_state : TransactionState → Bytes
stage_of_state TransactionState.created = bytes "preflight"
stage_of_state TransactionState.building = bytes "source.download"
stage_of_state TransactionState.sealed = bytes "install.bootstrap-marker"
stage_of_state TransactionState.published = bytes "install.path"
stage_of_state TransactionState.activating = bytes "install.path"
stage_of_state TransactionState.committed = cleanup
stage_of_state _ = bytes "preflight"

-- StageFromTransaction
unfoldable pub stage_from_transaction : InstallTransaction → Bytes
unfolding stage_of_state
stage_from_transaction txn = stage_of_state txn.state

-- `if next.StartedAt == nil { next.StartedAt = &now }`
abbrev pub started_by : ℕ → Option ℕ → Option ℕ
started_by now none = some now
started_by now (some t) = some t

-- A pending operation is run first, since only a running one may succeed.
abbrev pub run_first : ℕ → Operation → Operation
run_first now op = record op {
  stage = cleanup;
  status = Status.running;
  started_at = some now;
  updated_at = now;
}

-- The operation of a committed transaction.
unfoldable pub succeeded : ℕ → Operation → Operation
succeeded now op = record op {
  status = Status.succeeded;
  stage = cleanup;
  error_code = [];
  retryable = false;
  completed_at = some now;
  updated_at = now;
  started_at = started_by now op.started_at;
}

-- `_ = s.persistUpdate(ctx, op, next); return next, nil`
unfoldable pub write_and_return : Settings → Operation → Operation → Node → Operation × Node
write_and_return s op next node = (next, (persist_update s op next node).1)

unfoldable after_run :
    Settings → Operation → Result OperationError (Unit {0}) × Node → Operation × Node
unfolding write_and_return succeeded
after_run s running (ok u, node) = write_and_return s running (succeeded s.now running) node
after_run s running (err e, node) =
    (record running { status = Status.succeeded; completed_at = some s.now }, node)

unfoldable pub project_committed : Settings → Operation → Node → Operation × Node
unfolding after_run
project_committed s op node =
    if status_eq op.status Status.succeeded && same op.stage cleanup
    then (op, node)
    else if status_eq op.status Status.pending
    then after_run s (run_first s.now op) (persist_update s op (run_first s.now op) node)
    else write_and_return s op (succeeded s.now op) node

unfoldable pub project_activating : Settings → Bytes → Operation → Node → Operation × Node
unfolding write_and_return
project_activating s stage op node =
    if status_eq op.status Status.running && same stage op.stage
    then (op, node)
    else write_and_return s op
        (record op {
          stage = stage;
          status = Status.running;
          error_code = [];
          retryable = false;
          completed_at = none;
          updated_at = s.now;
          started_at = started_by s.now op.started_at;
        })
        node

-- The operation of a failed transaction; it keeps its own code where the transaction has none.
unfoldable pub failed_by : ℕ → Bytes → Code → Operation → Operation
failed_by now stage code op = record op {
  stage = stage;
  status = Status.failed;
  error_code = if is_empty (code_text code) then op.error_code else code_text code;
  retryable = true;
  completed_at = some now;
  updated_at = now;
}

-- The rest, for any other state of the transaction.
unfoldable pub project_open : Settings → InstallTransaction → Operation → Node → Operation × Node
unfolding write_and_return failed_by
project_open s txn op node =
    let stage = stage_from_transaction txn in
    if is_failed txn.state && not (is_terminal op.status)
    then write_and_return s op (failed_by s.now stage txn.error_code op) node
    else if not (same stage op.stage) && not (is_terminal op.status)
    then write_and_return s op (record op { stage = stage; updated_at = s.now }) node
    else (record op { stage = stage }, node)

unfoldable pub project_by :
    TransactionState → Settings → InstallTransaction → Operation → Node → Operation × Node
unfolding project_committed project_activating project_open
project_by TransactionState.committed s txn op node = project_committed s op node
project_by TransactionState.activating s txn op node =
    project_activating s (stage_from_transaction txn) op node
project_by _ s txn op node = project_open s txn op node

unfoldable pub project_linked :
    Settings → Operation → Node → Option InstallTransaction → Operation × Node
unfolding project_by
project_linked s op node none = (op, node)
project_linked s op node (some txn) = project_by txn.state s txn op node

-- projectOperation; it never returns an error
unfoldable pub project_operation : Settings → Operation → Node → Operation × Node
unfolding project_linked
project_operation s op node = project_linked s op node (load_linked_transaction s op node.disk)

unfoldable pub project_each : Settings → List Operation → Node → Node
unfolding project_operation
project_each s [] node = node
project_each s (op ∷ ops) node =
    let rest = project_each s ops in
    rest (if is_install op.operation_type then (project_operation s op node).1 else node)

unfoldable project_listed : Settings → Result OperationError (List Operation) → Node → Node
unfolding project_each
project_listed s (err e) node = node
project_listed s (ok ops) node = project_each s ops node

-- projectOpenInstalls
unfoldable pub project_open_installs : Settings → Node → Node
unfolding project_listed
project_open_installs s node =
    project_listed s (list_operations TargetType.runtime_kind [] (pos 50) node.rows) node
