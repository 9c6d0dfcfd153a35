-- ===== src/App/Project/Committed.antt =====
-- The projection of an operation whose transaction is committed.
use yorva.Prelude.{
  Bool, true, false, ◌&&◌, Option, none, some, same, same_refl, same_iff, if◌then◌else◌, Result, ok,
  err, ◌≡◌, refl, ap, ◌∙◌, arith, Bool-cases, inl, inr,
}
use yorva.Install.Types.{TransactionState, is_committed}
use yorva.Install.Records.{InstallTransaction}
use yorva.Operation.Types.{Status, status_eq, Operation}
use yorva.Operation.Table.Swap.{status_eq-true}
use yorva.Operation.Errors.{OperationError}
use yorva.Operation.Table.{Rows}
use yorva.App.Node.{Settings, Node, after_update, emit_operation, persist_update}
use yorva.App.Transactions.{load_linked_transaction}
use yorva.App.Project.{
  cleanup, run_first, succeeded, write_and_return, after_run, project_committed, project_by,
  project_linked, project_operation,
}

-- What a projection leaves: an operation that succeeded and is cleaned up, for the same transaction
-- and on the same disk.
pub record Settled (op : Operation) (node : Node) (done : Operation × Node) : Type 0 where
  pub status : done.0.status ≡ Status.succeeded
  pub stage : done.0.stage ≡ cleanup
  pub transaction_id : done.0.transaction_id ≡ op.transaction_id
  pub id : done.0.id ≡ op.id
  pub disk : done.1.disk ≡ node.disk

disk-after_update :
    (s : Settings)
    → (current next : Operation) → (node : Node) → (r : Result OperationError Rows)
    → (after_update s current next node r).1.disk ≡ node.disk
unfolding after_update emit_operation
disk-after_update s current next node (ok rows) = refl
disk-after_update s current next node (err e) = refl

pub disk-persist_update :
    (s : Settings)
    → (current next : Operation) → (node : Node)
    → (persist_update s current next node).1.disk ≡ node.disk
unfolding persist_update
disk-persist_update s current next node = disk-after_update s current next node _

Settled-written :
    (s : Settings)
    → (current op : Operation) → (node node' : Node) → current.transaction_id ≡ op.transaction_id
    → current.id ≡ op.id
    → node'.disk ≡ node.disk
    → Settled op node (write_and_return s current (succeeded s.now current) node')
unfolding write_and_return succeeded
Settled-written s current op node node' same_txn same_id same_disk = record {
  status = refl;
  stage = refl;
  transaction_id = same_txn;
  id = same_id;
  disk = disk-persist_update s current (succeeded s.now current) node' ∙ same_disk;
}

Settled-after_run :
    (s : Settings)
    → (op : Operation) → (node : Node) → (ran : Result OperationError (Unit {0}) × Node)
    → ran.1.disk ≡ node.disk
    → Settled op node (after_run s (run_first s.now op) ran)
unfolding after_run
Settled-after_run s op node (ok u, node') same_disk =
    Settled-written s (run_first s.now op) op node node' refl refl same_disk
Settled-after_run s op node (err e, node') same_disk = record {
  status = refl;
  stage = refl;
  transaction_id = refl;
  id = refl;
  disk = same_disk;
}

and_parts : (a b : Bool) → (a && b) ≡ true → (a ≡ true) × (b ≡ true)
and_parts a b h = (ground arith, ground arith)

Settled-already :
    (op : Operation)
    → (node : Node) → (status_eq op.status Status.succeeded && same op.stage cleanup) ≡ true
    → Settled op node (op, node)
Settled-already op node h =
    let (has_status, has_stage) = and_parts _ _ h in
    record {
      status = status_eq-true op.status Status.succeeded has_status;
      stage = (same_iff op.stage cleanup).0 has_stage;
      transaction_id = refl;
      id = refl;
      disk = refl;
    }

Settled-project_committed :
    (s : Settings)
    → (op : Operation) → (node : Node) → Settled op node (project_committed s op node)
unfolding project_committed
Settled-project_committed s op node =
    elim (Bool-cases (status_eq op.status Status.succeeded && same op.stage cleanup)) [
      | inl done ↦ rw done (Settled-already op node done)
      | inr not_done ↦
          rw not_done
            (elim (status_eq op.status Status.pending)
              as (λ b. Settled op node (
                if b
                then after_run s (run_first s.now op)
                    (persist_update s op (run_first s.now op) node)
                else write_and_return s op (succeeded s.now op) node)) [
                  | true ↦
                      Settled-after_run s op node _
                        (disk-persist_update s op (run_first s.now op) node)
                  | false ↦ Settled-written s op op node node refl refl refl
                ])
    ]

abbrev pub committed_txn : Option InstallTransaction → Bool
committed_txn none = false
committed_txn (some txn) = is_committed txn.state

Settled-project_by :
    (s : Settings)
    → (op : Operation) → (node : Node) → (state : TransactionState) → (txn : InstallTransaction)
    → is_committed state ≡ true
    → Settled op node (project_by state s txn op node)
unfolding project_by
Settled-project_by s op node TransactionState.committed txn h = Settled-project_committed s op node
Settled-project_by s op node TransactionState.unset txn h = cc
Settled-project_by s op node TransactionState.created txn h = cc
Settled-project_by s op node TransactionState.building txn h = cc
Settled-project_by s op node TransactionState.sealed txn h = cc
Settled-project_by s op node TransactionState.published txn h = cc
Settled-project_by s op node TransactionState.activating txn h = cc
Settled-project_by s op node TransactionState.failed txn h = cc
Settled-project_by s op node (TransactionState.other t) txn h = cc

Settled-project_linked :
    (s : Settings)
    → (op : Operation) → (node : Node) → (found : Option InstallTransaction)
    → committed_txn found ≡ true
    → Settled op node (project_linked s op node found)
unfolding project_linked
Settled-project_linked s op node none h = cc
Settled-project_linked s op node (some txn) h = Settled-project_by s op node txn.state txn h

pub Settled-project_operation :
    (s : Settings)
    → (op : Operation) → (node : Node)
    → committed_txn (load_linked_transaction s op node.disk) ≡ true
    → Settled op node (project_operation s op node)
unfolding project_operation
Settled-project_operation s op node h = Settled-project_linked s op node _ h

-- A settled operation of a committed transaction is left as it is.
settled_stays :
    (s : Settings)
    → (op : Operation) → (node : Node) → op.status ≡ Status.succeeded
    → op.stage ≡ cleanup
    → project_committed s op node ≡ (op, node)
unfolding project_committed status_eq
settled_stays s op node has_status has_stage =
    rw (has_status, has_stage) (rw (same_refl cleanup) refl)

state_stays :
    (state : TransactionState)
    → (s : Settings) → (op : Operation) → (node : Node) → (txn : InstallTransaction)
    → is_committed state ≡ true
    → op.status ≡ Status.succeeded
    → op.stage ≡ cleanup
    → project_by state s txn op node ≡ (op, node)
unfolding project_by
state_stays TransactionState.committed s op node txn h has_status has_stage =
    settled_stays s op node has_status has_stage
state_stays TransactionState.unset s op node txn h has_status has_stage = cc
state_stays TransactionState.created s op node txn h has_status has_stage = cc
state_stays TransactionState.building s op node txn h has_status has_stage = cc
state_stays TransactionState.sealed s op node txn h has_status has_stage = cc
state_stays TransactionState.published s op node txn h has_status has_stage = cc
state_stays TransactionState.activating s op node txn h has_status has_stage = cc
state_stays TransactionState.failed s op node txn h has_status has_stage = cc
state_stays (TransactionState.other t) s op node txn h has_status has_stage = cc

linked_stays :
    (s : Settings)
    → (op : Operation) → (node : Node) → (found : Option InstallTransaction)
    → committed_txn found ≡ true
    → op.status ≡ Status.succeeded
    → op.stage ≡ cleanup
    → project_linked s op node found ≡ (op, node)
unfolding project_linked
linked_stays s op node none h has_status has_stage = cc
linked_stays s op node (some txn) h has_status has_stage =
    state_stays txn.state s op node txn h has_status has_stage

linked_again :
    (s : Settings)
    → (op : Operation) → (node : Node)
    → committed_txn (load_linked_transaction s op node.disk) ≡ true
    → op.status ≡ Status.succeeded
    → op.stage ≡ cleanup
    → project_operation s op node ≡ (op, node)
unfolding project_operation
linked_again s op node h has_status has_stage = linked_stays s op node _ h has_status has_stage

load-of_Settled :
    (s : Settings)
    → (op : Operation) → (node : Node) → (done : Operation × Node) → Settled op node done
    → load_linked_transaction s done.0 done.1.disk ≡ load_linked_transaction s op node.disk
unfolding load_linked_transaction
load-of_Settled s op node done settled = rw (settled.transaction_id, settled.disk) refl

-- Reading an operation whose transaction is committed gives one that succeeded and is cleaned up,
-- whatever the operation was before and even where the table refuses the update; and reading what
-- was given once more changes nothing.
pub project_operation-committed :
    (s : Settings)
    → (op : Operation) → (node : Node)
    → committed_txn (load_linked_transaction s op node.disk) ≡ true
    → ((project_operation s op node).0.status ≡ Status.succeeded)
      × (((project_operation s op node).0.stage ≡ cleanup)
          × (project_operation s (project_operation s op node).0 (project_operation s op node).1
              ≡ project_operation s op node))
project_operation-committed s op node h =
    let settled = Settled-project_operation s op node h in
    let done = project_operation s op node in
    (
      settled.status,
      (
        settled.stage,
        linked_again s done.0 done.1 (ap committed_txn (load-of_Settled s op node done settled) ∙ h)
            settled.status settled.stage,
      ),
    )
