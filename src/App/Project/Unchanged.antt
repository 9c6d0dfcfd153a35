-- ===== src/App/Project/Unchanged.antt =====
-- A projection reads the disk and does not write to it.
use yorva.Prelude.{
  Bool, true, false, not, ◌&&◌, Option, none, some, List, [], ◌∷◌, Bytes, pos, same, if◌then◌else◌,
  Result, ok, err, ◌≡◌, refl, ◌∙◌,
}
use yorva.Install.Types.{TransactionState, is_failed}
use yorva.Install.Records.{InstallTransaction}
use yorva.Operation.Types.{Operation, TargetType, Status, status_eq}
use yorva.Operation.Status.{is_terminal}
use yorva.Operation.Errors.{OperationError}
use yorva.Operation.Queries.{is_install}
use yorva.Operation.Lists.{list_operations}
use yorva.App.Node.{Settings, Node, persist_update}
use yorva.App.Project.{
  stage_from_transaction, cleanup, run_first, succeeded, write_and_return, after_run,
  project_committed, project_activating, project_open, project_by, project_linked,
  project_operation, project_each, project_listed, project_open_installs,
}
use yorva.App.Project.Committed.{disk-persist_update}

abbrev Keeps : Node → Operation × Node → Type 0
Keeps node (op, node') = node'.disk ≡ node.disk

Keeps-if :
    (node : Node)
    → (b : Bool) → (p q : Operation × Node) → Keeps node p
    → Keeps node q
    → Keeps node (if b then p else q)
Keeps-if node true p q hp hq = hp
Keeps-if node false p q hp hq = hq

Keeps-written :
    (s : Settings)
    → (op next : Operation) → (node : Node) → Keeps node (write_and_return s op next node)
unfolding write_and_return
Keeps-written s op next node = disk-persist_update s op next node

Keeps-after_run :
    (s : Settings)
    → (running : Operation) → (node : Node) → (ran : Result OperationError (Unit {0}) × Node)
    → ran.1.disk ≡ node.disk
    → Keeps node (after_run s running ran)
unfolding after_run
Keeps-after_run s running node (ok u, node') same_disk =
    Keeps-written s running (succeeded s.now running) node' ∙ same_disk
Keeps-after_run s running node (err e, node') same_disk = same_disk

Keeps-project_committed :
    (s : Settings) → (op : Operation) → (node : Node) → Keeps node (project_committed s op node)
unfolding project_committed
Keeps-project_committed s op node =
    Keeps-if node (status_eq op.status Status.succeeded && same op.stage cleanup) (op, node) _ refl
      (Keeps-if node (status_eq op.status Status.pending)
        (after_run s (run_first s.now op) (persist_update s op (run_first s.now op) node))
        (write_and_return s op (succeeded s.now op) node)
        (Keeps-after_run s (run_first s.now op) node _
          (disk-persist_update s op (run_first s.now op) node))
        (Keeps-written s op (succeeded s.now op) node))

Keeps-project_activating :
    (s : Settings)
    → (stage : Bytes) → (op : Operation) → (node : Node)
    → Keeps node (project_activating s stage op node)
unfolding project_activating
Keeps-project_activating s stage op node =
    Keeps-if node (status_eq op.status Status.running && same stage op.stage) (op, node) _ refl
      (Keeps-written s op _ node)

Keeps-project_open :
    (s : Settings)
    → (txn : InstallTransaction) → (op : Operation) → (node : Node)
    → Keeps node (project_open s txn op node)
unfolding project_open
Keeps-project_open s txn op node =
    Keeps-if node (is_failed txn.state && not (is_terminal op.status))
      (write_and_return s op _ node) _ (Keeps-written s op _ node)
      (Keeps-if node
        (not (same (stage_from_transaction txn) op.stage) && not (is_terminal op.status))
        (write_and_return s op _ node) (record op { stage = stage_from_transaction txn }, node)
        (Keeps-written s op _ node) refl)

Keeps-project_by :
    (state : TransactionState)
    → (s : Settings) → (txn : InstallTransaction) → (op : Operation) → (node : Node)
    → Keeps node (project_by state s txn op node)
unfolding project_by
Keeps-project_by TransactionState.committed s txn op node = Keeps-project_committed s op node
Keeps-project_by TransactionState.activating s txn op node =
    Keeps-project_activating s (stage_from_transaction txn) op node
Keeps-project_by TransactionState.unset s txn op node = Keeps-project_open s txn op node
Keeps-project_by TransactionState.created s txn op node = Keeps-project_open s txn op node
Keeps-project_by TransactionState.building s txn op node = Keeps-project_open s txn op node
Keeps-project_by TransactionState.sealed s txn op node = Keeps-project_open s txn op node
Keeps-project_by TransactionState.published s txn op node = Keeps-project_open s txn op node
Keeps-project_by TransactionState.failed s txn op node = Keeps-project_open s txn op node
Keeps-project_by (TransactionState.other t) s txn op node = Keeps-project_open s txn op node

Keeps-project_linked :
    (s : Settings)
    → (op : Operation) → (node : Node) → (linked : Option InstallTransaction)
    → Keeps node (project_linked s op node linked)
unfolding project_linked
Keeps-project_linked s op node none = refl
Keeps-project_linked s op node (some txn) = Keeps-project_by txn.state s txn op node

pub disk-project_operation :
    (s : Settings)
    → (op : Operation) → (node : Node) → (project_operation s op node).1.disk ≡ node.disk
unfolding project_operation
disk-project_operation s op node = Keeps-project_linked s op node _

disk-projected_if :
    (s : Settings)
    → (op : Operation) → (node : Node) → (b : Bool)
    → (if b then (project_operation s op node).1 else node).disk ≡ node.disk
disk-projected_if s op node true = disk-project_operation s op node
disk-projected_if s op node false = refl

disk-project_each :
    (s : Settings)
    → (ops : List Operation) → (node : Node) → (project_each s ops node).disk ≡ node.disk
unfolding project_each
disk-project_each s [] node = refl
disk-project_each s (op ∷ ops) node =
    disk-project_each s ops _ ∙ disk-projected_if s op node (is_install op.operation_type)

disk-project_listed :
    (s : Settings)
    → (listed : Result OperationError (List Operation)) → (node : Node)
    → (project_listed s listed node).disk ≡ node.disk
unfolding project_listed
disk-project_listed s (err e) node = refl
disk-project_listed s (ok ops) node = disk-project_each s ops node

pub disk-project_open_installs :
    (s : Settings) → (node : Node) → (project_open_installs s node).disk ≡ node.disk
unfolding project_open_installs
disk-project_open_installs s node =
    disk-project_listed s (list_operations TargetType.runtime_kind [] (pos 50) node.rows) node
