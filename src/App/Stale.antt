-- ===== src/App/Stale.antt =====
-- InterruptStale (runtime_install.go), which a daemon runs when it starts.
pub mod Owned
use yorva.Prelude.{
  ℕ, pos, Bool, true, false, not, ◌&&◌, ◌||◌, Option, none, some, List, [], ◌∷◌, ◌++◌, Bytes, bytes,
  if◌then◌else◌, Result, ok, err,
}
use yorva.Operation.Types.{TargetType, Status, Operation}
use yorva.Operation.Status.{is_terminal}
use yorva.Operation.Errors.{OperationError}
use yorva.Operation.Constraints.{is_host_mutation}
use yorva.Operation.Queries.{is_install}
use yorva.Operation.Lists.{list_operations}
use yorva.Operation.Table.{interrupted}
use yorva.App.Node.{Settings, Node, persist_update, emit_operation}
use yorva.App.Transactions.{filesystem_owns_operation}
use yorva.App.Project.{project_open_installs}

-- The operations that the loop passes over.
unfoldable pub passed_over : Settings → Node → Operation → Bool
passed_over s node current =
    not (is_host_mutation current.operation_type)
    || is_terminal current.status
    || is_install current.operation_type && filesystem_owns_operation s current node.disk

-- What the loop returns: what it interrupted, and the error that ended it early.
pub record Interrupted : Type 0 where
  pub operations : List Operation
  pub error : Option OperationError

abbrev pub also : Operation → Interrupted × Node → Interrupted × Node
also op (done, node) = (record done { operations = op ∷ done.operations }, node)

-- The second event has no operation before it.
unfoldable after_interrupt :
    Settings
    → Operation
    → Result OperationError (Unit {0}) × Node
    → (Node → Interrupted × Node)
    → Interrupted × Node
unfolding emit_operation
after_interrupt s next (err e, node) rest = (record { operations = []; error = some e }, node)
after_interrupt s next (ok u, node) rest = also next (rest (emit_operation s [] next false node))

-- The loop of InterruptStale.
unfoldable pub interrupt_stale_each : Settings → List Operation → Node → Interrupted × Node
unfolding after_interrupt passed_over
interrupt_stale_each s [] node = (record { operations = []; error = none }, node)
interrupt_stale_each s (current ∷ ops) node =
    let rest = interrupt_stale_each s ops in
    if passed_over s node current
    then rest node
    else after_interrupt s (interrupted s.now current)
        (persist_update s current (interrupted s.now current) node) rest

unfoldable interrupt_listed :
    Settings → Result OperationError (List Operation) → Node → Interrupted × Node
unfolding interrupt_stale_each
interrupt_listed s (err e) node = (record { operations = []; error = some e }, node)
interrupt_listed s (ok ops) node = interrupt_stale_each s ops node

unfoldable pub interrupt_after : Settings → Node → Interrupted × Node
unfolding interrupt_listed
interrupt_after s node =
    interrupt_listed s (list_operations TargetType.runtime_kind [] (pos 50) node.rows) node

-- InterruptStale
unfoldable pub interrupt_stale : Settings → Node → Interrupted × Node
unfolding interrupt_after project_open_installs
interrupt_stale s node = interrupt_after s (project_open_installs s node)
