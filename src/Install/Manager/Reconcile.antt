-- ===== src/Install/Manager/Reconcile.antt =====
-- environment_apply.go: the environment is brought to what the active generation wants, and then
-- the transaction is committed.
use yorva.Prelude.{
  Bool, true, false, not, ◌&&◌, ◌||◌, some, none, List, Bytes, bytes, same, if◌then◌else◌, Result,
  ok, err, guard,
}
use yorva.Prelude.Results.{bind_result}
use yorva.Install.Types.{is_committed, TransactionState, complete}
use yorva.Install.Records.{Err, io, invalid_record, not_observed, InstallTransaction, ActiveRecord}
use yorva.Install.Environment.{
  ObservedEnvironment, EnvironmentPlan, compute_environment_plan, plan_observation,
}
use yorva.Install.Disk.{Disk, M, pure, reads, ◌>>=◌, ◌>>◌, write}
use yorva.Install.Seal.{load_active}
use yorva.Install.Store.{load_transaction, has_committed}
use yorva.Install.Observe.{policy_from_active}
use yorva.Install.Manager.Persist.{persist, now, outcome}
use yorva.Install.Manager.Activate.{is_activating}
use yorva.Install.Gc.Collect.{collect}

-- Manager.readObserved
unfoldable pub read_observed : Disk → Result Err ObservedEnvironment
read_observed d = elim d.environment [ none ↦ err io | some observed ↦ ok observed ]

-- The two registry values, written.
set_home : Bytes → Disk → Disk
set_home home d = elim d.environment [
  | none ↦ d
  | some o ↦ record d { environment = some (record o { hermes_home = home }) }
]

set_path : List Bytes → Disk → Disk
set_path entries d = elim d.environment [
  | none ↦ d
  | some o ↦ record d { environment = some (record o { path_entries = entries }) }
]

-- The writes of reconcileOnce: the home first, then the path.
unfoldable pub write_plan : EnvironmentPlan → M (Unit {0})
unfolding set_home set_path
write_plan plan = do
  if plan.set_hermes_home then write (set_home plan.hermes_home) else pure tt
  if plan.path_changed then write (set_path plan.path_entries) else pure tt

-- Manager.reconcileOnce; what broadcasting the change returns is ignored there.
unfoldable pub reconcile_once : ActiveRecord → Bool → M (Unit {0})
unfolding write_plan read_observed
reconcile_once rec allow_stale = do
  policy ← reads (λ d. policy_from_active d rec allow_stale)
  observed ← reads read_observed
  platform ← reads (λ d. ok d.platform)
  let plan = compute_environment_plan platform policy observed
  write_plan plan
  readback ← reads read_observed
  reads (λ d. guard (complete (plan_observation platform plan readback)) not_observed)

-- The environment is observed complete for the active generation, no stale entry removed.
unfoldable pub observed_complete : ActiveRecord → Disk → Result Err (Unit {0})
unfolding read_observed
observed_complete rec d = bind_result (read_observed d) λ o.
    bind_result (policy_from_active d rec false) λ policy.
      guard
        (complete (plan_observation d.platform (compute_environment_plan d.platform policy o) o))
        not_observed

-- What follows the first reconciliation of an ACTIVATING transaction.
unfoldable pub commit_observed : ActiveRecord → InstallTransaction → M InstallTransaction
unfolding observed_complete
commit_observed rec loaded = do
  reads (observed_complete rec)
  time ← now
  committed ← persist (record loaded {
    state = TransactionState.committed;
    step = bytes "committed";
    committed_at = some time;
    updated_at = time;
  })
  outcome collect
  pure committed

-- Manager.ReconcileEnvironment
unfoldable pub reconcile_environment : Bytes → M InstallTransaction
unfolding reconcile_once commit_observed
reconcile_environment id = do
  loaded ← reads (load_transaction id)
  reads (λ d. guard (is_activating loaded.state || is_committed loaded.state) invalid_record)
  rec ← reads load_active
  reads (λ d.
      guard (not (not (same rec.generation_id loaded.generation_id) && is_activating loaded.state))
        invalid_record)
  committed ← reads (λ d. ok (is_committed loaded.state || has_committed d))
  reconcile_once rec committed
  final ← (if is_activating loaded.state then commit_observed rec loaded else pure loaded)
  outcome (reconcile_once rec true)
  pure final
