-- ===== src/App/Cancel/Committed.antt =====
-- A cancellation that comes too late.
use yorva.Prelude.{true, Option, none, some, Bytes, ok, ◌≡◌, refl}
use yorva.Install.Types.{TransactionState, is_committed}
use yorva.Install.Records.{InstallTransaction}
use yorva.Operation.Types.{Status, Operation}
use yorva.Operation.Queries.{get_operation}
use yorva.App.Node.{Settings, Node}
use yorva.App.Transactions.{
  load_linked_transaction, filesystem_owns_operation, owned_by, owns_state,
}
use yorva.App.Project.{project_operation}
use yorva.App.Project.Committed.{committed_txn, project_operation-committed}
use yorva.App.Cancel.{cancel_found, cancel}

owns_state-committed :
    (state : TransactionState) → is_committed state ≡ true → owns_state state ≡ true
owns_state-committed TransactionState.committed h = refl
owns_state-committed TransactionState.activating h = refl
owns_state-committed TransactionState.unset h = cc
owns_state-committed TransactionState.created h = cc
owns_state-committed TransactionState.building h = cc
owns_state-committed TransactionState.sealed h = cc
owns_state-committed TransactionState.published h = cc
owns_state-committed TransactionState.failed h = cc
owns_state-committed (TransactionState.other t) h = cc

owned_by-committed :
    (found : Option InstallTransaction) → committed_txn found ≡ true → owned_by found ≡ true
owned_by-committed none h = cc
owned_by-committed (some txn) h = owns_state-committed txn.state h

pub owns-committed :
    (s : Settings)
    → (op : Operation) → (node : Node)
    → committed_txn (load_linked_transaction s op node.disk) ≡ true
    → filesystem_owns_operation s op node.disk ≡ true
unfolding filesystem_owns_operation
owns-committed s op node h = owned_by-committed (load_linked_transaction s op node.disk) h

-- Cancelling an operation whose transaction is committed gives the operation as it is read, and that
-- one has succeeded, whether or not a worker runs it and whatever the worker does meanwhile.
pub cancel-committed :
    (s : Settings)
    → (wait : Node → Node) → (id : Bytes) → (node : Node) → (current : Operation)
    → get_operation id node.rows ≡ ok current
    → committed_txn (load_linked_transaction s current node.disk) ≡ true
    → (cancel s wait id node
        ≡ (ok (project_operation s current node).0, (project_operation s current node).1))
      × ((project_operation s current node).0.status ≡ Status.succeeded)
unfolding cancel cancel_found
cancel-committed s wait id node current found committed =
    let (has_status, rest) = project_operation-committed s current node committed in
    (rw found (rw (owns-committed s current node committed) refl), has_status)
