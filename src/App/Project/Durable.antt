-- ===== src/App/Project/Durable.antt =====
-- The projection of an operation whose transaction is committed is stored.
use yorva.Prelude.{
  ℕ, true, false, not, ◌&&◌, Option, none, some, same, same_refl, Result, ok, err, ◌≡◌, refl, sym,
  ap, arith, Bool-cases, inl, inr,
}
use yorva.Install.Types.{TransactionState, is_committed}
use yorva.Install.Records.{InstallTransaction}
use yorva.Operation.Types.{Status, status_eq, Operation}
use yorva.Operation.Status.{valid_status_change}
use yorva.Operation.Constraints.{is_active, completion_ok}
use yorva.Operation.Errors.{OperationError}
use yorva.Operation.Table.{updated}
use yorva.Operation.Table.Swap.{status_eq-true}
use yorva.Operation.Table.Effective.{Changes}
use yorva.App.Node.{Settings, Node}
use yorva.App.Node.Stored.{
  may_run, no_time-Stored, Stored, Took, no_progress-Stored, completion-Stored, Took-persist_update,
}
use yorva.App.Transactions.{load_linked_transaction}
use yorva.App.Project.{
  cleanup, run_first, succeeded, write_and_return, after_run, project_committed, project_by,
  project_linked, project_operation,
}
use yorva.App.Project.Committed.{committed_txn}

abbrev pub Durable : Operation × Node → Type 0
Durable out = Stored out.0 out.1

may_end :
    (s : Status) (t : Option ℕ)
    → completion_ok s t ≡ true
    → status_eq s Status.pending ≡ false
    → not (status_eq s Status.succeeded) && not (valid_status_change s Status.succeeded) ≡ false
unfolding status_eq valid_status_change
may_end s t h k = ground (arith, h, k)

succeeded-Changes :
    (now : ℕ) (op : Operation) (node : Node)
    → status_eq op.status Status.pending ≡ false
    → Stored op node
    → Changes op (succeeded now op)
unfolding succeeded
succeeded-Changes now op node not_pending st = record {
  same_id = same_refl op.id;
  allowed = may_end op.status op.completed_at (completion-Stored op node st) not_pending;
  progress = no_progress-Stored op node st;
  activity = λ a. absurd (ground (arith, a));
  completed = refl;
}

updated-succeeded :
    (now : ℕ) (op : Operation)
    → op.progress ≡ none
    → updated (succeeded now op) op ≡ succeeded now op
unfolding updated succeeded
updated-succeeded now op h = ap (λ p. record (succeeded now op) { progress = p }) (sym h)

Durable-written :
    (s : Settings)
    → (op : Operation) → (node : Node) → status_eq op.status Status.pending ≡ false
    → Stored op node
    → Durable (write_and_return s op (succeeded s.now op) node)
unfolding write_and_return
Durable-written s op node not_pending st =
    (Took-persist_update s op (succeeded s.now op) node st
      (succeeded-Changes s.now op node not_pending st)
      (updated-succeeded s.now op (no_progress-Stored op node st))).stored

run_first-Changes :
    (now : ℕ) (op : Operation) (node : Node)
    → op.status ≡ Status.pending
    → Stored op node
    → Changes op (run_first now op)
run_first-Changes now op node pending st =
    let active : is_active op.status ≡ true = ap is_active pending in
    record {
      same_id = same_refl op.id;
      allowed = rw pending may_run;
      progress = no_progress-Stored op node st;
      activity = λ a. active;
      completed = ap (completion_ok Status.running) (no_time-Stored op node active st);
    }

updated-run_first :
    (now : ℕ) (op : Operation)
    → op.progress ≡ none
    → updated (run_first now op) op ≡ run_first now op
unfolding updated
updated-run_first now op h = ap (λ p. record (run_first now op) { progress = p }) (sym h)

Durable-after_run :
    (s : Settings)
    → (op : Operation) → (node : Node) → (out : Result OperationError (Unit {0}) × Node)
    → Took (run_first s.now op) node out
    → Durable (after_run s (run_first s.now op) out)
unfolding after_run status_eq
Durable-after_run s op node (ok u, node') took =
    Durable-written s (run_first s.now op) node' refl took.stored
Durable-after_run s op node (err e, node') took = cc

Durable-project_committed :
    (s : Settings)
    → (op : Operation) → (node : Node) → Stored op node
    → Durable (project_committed s op node)
unfolding project_committed
Durable-project_committed s op node st =
    elim (Bool-cases (status_eq op.status Status.succeeded && same op.stage cleanup)) [
      | inl done ↦ rw done st
      | inr not_done ↦ elim (Bool-cases (status_eq op.status Status.pending)) [
        | inl pending ↦
            let is_pending = status_eq-true op.status Status.pending pending in
            rw (not_done, pending)
              (Durable-after_run s op node _ (
                Took-persist_update s op (run_first s.now op) node st
                  (run_first-Changes s.now op node is_pending st)
                  (updated-run_first s.now op (no_progress-Stored op node st))))
        | inr not_pending ↦ rw (not_done, not_pending) (Durable-written s op node not_pending st)
      ]
    ]

Durable-project_by :
    (s : Settings)
    → (op : Operation) → (node : Node) → (state : TransactionState) → (txn : InstallTransaction)
    → is_committed state ≡ true
    → Stored op node
    → Durable (project_by state s txn op node)
unfolding project_by
Durable-project_by s op node TransactionState.committed txn h st =
    Durable-project_committed s op node st
Durable-project_by s op node TransactionState.unset txn h st = cc
Durable-project_by s op node TransactionState.created txn h st = cc
Durable-project_by s op node TransactionState.building txn h st = cc
Durable-project_by s op node TransactionState.sealed txn h st = cc
Durable-project_by s op node TransactionState.published txn h st = cc
Durable-project_by s op node TransactionState.activating txn h st = cc
Durable-project_by s op node TransactionState.failed txn h st = cc
Durable-project_by s op node (TransactionState.other t) txn h st = cc

Durable-project_linked :
    (s : Settings)
    → (op : Operation) → (node : Node) → (found : Option InstallTransaction)
    → committed_txn found ≡ true
    → Stored op node
    → Durable (project_linked s op node found)
unfolding project_linked
Durable-project_linked s op node none h st = cc
Durable-project_linked s op node (some txn) h st = Durable-project_by s op node txn.state txn h st

-- On a table that breaks no constraint, the operation that a projection gives is the one that is
-- stored after it, where the transaction is committed.
pub project_operation-Durable :
    (s : Settings)
    → (op : Operation) → (node : Node)
    → committed_txn (load_linked_transaction s op node.disk) ≡ true
    → Stored op node
    → Durable (project_operation s op node)
unfolding project_operation
project_operation-Durable s op node h st =
    Durable-project_linked s op node (load_linked_transaction s op node.disk) h st
