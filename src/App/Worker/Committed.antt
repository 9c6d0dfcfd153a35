-- ===== src/App/Worker/Committed.antt =====
-- A worker that fails after its transaction was committed.
use mathlib.Core.Path.{subst}
use yorva.Prelude.{Bool, true, some, Bytes, ok, ◌≡◌, refl, sym, ◌∙◌}
use yorva.Operation.Types.{Status, Operation}
use yorva.Operation.Table.Rows.{IsConsistent}
use yorva.Operation.Queries.{get_operation}
use yorva.App.Node.{Settings, Node}
use yorva.App.Node.Stored.{get_operation-Stored, Stored-get_operation}
use yorva.App.Transactions.{load_linked_transaction}
use yorva.App.Project.{cleanup, project_operation}
use yorva.App.Project.Committed.{committed_txn, Settled-project_operation}
use yorva.App.Project.Durable.{project_operation-Durable}
use yorva.App.Cancel.Committed.{owns-committed}
use yorva.App.Worker.Codes.{HostError}
use yorva.App.Worker.Failing.{
  fail_latest, fail, projected_or, owned_latest, apply_failed_open, apply_failed, postcheck_failed,
}

-- The stored operation succeeded and is cleaned up.
pub record Ended (id : Bytes) (node : Node) : Type 0 where
  pub operation : Operation
  pub found : get_operation id node.rows ≡ ok operation
  pub status : operation.status ≡ Status.succeeded
  pub stage : operation.stage ≡ cleanup

module _ (s : Settings) (id : Bytes) (node : Node) (latest : Operation)
    (good : IsConsistent node.rows) (found : get_operation id node.rows ≡ ok latest)
    (committed : committed_txn (load_linked_transaction s latest node.disk) ≡ true) where
  Ended-project : Ended id (project_operation s latest node).1
  Ended-project =
      let (st, is_id) = Stored-get_operation id latest node good found in
      let settled = Settled-project_operation s latest node committed in
      record {
        operation = (project_operation s latest node).0;
        found =
            subst
              (λ i.
                get_operation i (project_operation s latest node).1.rows
                ≡ ok (project_operation s latest node).0)
              (settled.id ∙ is_id)
              (get_operation-Stored _ _ (project_operation-Durable s latest node committed st));
        status = settled.status;
        stage = settled.stage;
      }

  owned :
      owned_latest s node (get_operation id node.rows) ≡ some (project_operation s latest node).1
  unfolding owned_latest
  owned = rw (found, owns-committed s latest node committed) refl

  Ended-projected_or :
      (otherwise : Node)
      → Ended id (projected_or otherwise (owned_latest s node (get_operation id node.rows)))
  Ended-projected_or otherwise =
      subst (λ o. Ended id (projected_or otherwise o)) (sym owned) Ended-project

  Ended-fail : (code : Bytes) → (retryable : Bool) → Ended id (fail s id code retryable node)
  unfolding fail fail_latest
  Ended-fail code retryable = rw (found, owns-committed s latest node committed) Ended-project

  Ended-apply_failed : (e : HostError) → Ended id (apply_failed s id e node)
  unfolding apply_failed
  Ended-apply_failed e = Ended-projected_or (apply_failed_open s id e node)

  Ended-postcheck_failed : Ended id (postcheck_failed s id node)
  unfolding postcheck_failed
  Ended-postcheck_failed = Ended-projected_or _

-- Where the transaction of the stored operation is committed and the table breaks no constraint, a
-- worker whose Apply fails, in whatever way, whose discovery does not confirm the installation, or
-- that fails with any code leaves the operation stored as SUCCEEDED at the stage `cleanup`.
pub failed_worker-committed :
    (s : Settings)
    → (id : Bytes) → (node : Node) → (latest : Operation) → (e : HostError) → (code : Bytes)
    → (retryable : Bool) → IsConsistent node.rows
    → get_operation id node.rows ≡ ok latest
    → committed_txn (load_linked_transaction s latest node.disk) ≡ true
    → Ended id (apply_failed s id e node)
      × (Ended id (postcheck_failed s id node) × Ended id (fail s id code retryable node))
failed_worker-committed s id node latest e code retryable good found committed = (
  Ended-apply_failed s id node latest good found committed e,
  (
    Ended-postcheck_failed s id node latest good found committed,
    Ended-fail s id node latest good found committed code retryable,
  ),
)
