-- ===== src/Install/Execute.antt =====
-- recovery_execute.go: carrying a decision out. A context that is cancelled is not modelled.
pub mod Quiet
use yorva.Prelude.{
  ℕ, Bool, true, false, not, ◌&&◌, ◌||◌, Option, some, none, List, [], ◌∷◌, Bytes, bytes, same,
  if◌then◌else◌, Result, ok, err, guard, is_ok,
}
use yorva.Install.Types.{
  TransactionState, state_eq, Action, Code, code_eq, TransactionView, Observation, RecoveryDecision,
}
use yorva.Install.Records.{
  Err, io, invalid_record, staging_occupied, generation_occupied, publish_conflict, reparse_point,
  InstallTransaction,
}
use yorva.Install.Ids.{parse_transaction_id, parse_generation_id}
use yorva.Install.Disk.{Disk, Tree, M, pure, raise, reads, ◌>>=◌, ◌>>◌, write, find, remove}
use yorva.Install.Seal.{reject_reparse}
use yorva.Install.Store.{load_transaction, save_transaction}
use yorva.Install.Pointer.{snapshot_active_before}
use yorva.Install.Observe.{primary_txn, dir_empty}
use yorva.Install.Manager.Persist.{now}
use yorva.Install.Manager.Activate.{or_time, activate}
use yorva.Install.Manager.Reconcile.{reconcile_environment}
use yorva.Install.Decide.Outcome.{failable}

abbrev pub primary : Observation → TransactionView
primary obs = primary_txn obs.transactions obs.active

-- The times that persistTxnState stamps for a state.
stamped : TransactionState → ℕ → InstallTransaction → InstallTransaction
stamped TransactionState.published time txn = record txn {
  published_at = or_time txn.published_at time;
}
stamped TransactionState.activating time txn = record txn {
  activated_at = or_time txn.activated_at time;
}
stamped TransactionState.committed time txn = record txn {
  committed_at = or_time txn.committed_at time;
}
stamped _ time txn = txn

-- persistTxnState
unfoldable pub persist_txn_state : Bytes → TransactionState → Code → M (Unit {0})
unfolding stamped
persist_txn_state id state code = do
  txn ← reads (load_transaction id)
  if state_eq txn.state state && code_eq txn.error_code code then pure tt else (do
    time ← now
    save_transaction
        (stamped state time (record txn { state = state; error_code = code; updated_at = time })))

abbrev pub is_unset : TransactionState → Bool
is_unset TransactionState.unset = true
is_unset _ = false

-- persistPrimaryState
unfoldable pub persist_primary_state : Observation → TransactionState → Code → M (Unit {0})
unfolding persist_txn_state
persist_primary_state obs next code =
    if is_unset next || not (primary obs).valid
    then pure tt
    else persist_txn_state (primary obs).id next code

-- persistActivating
unfoldable pub persist_activating : Observation → M (Unit {0})
persist_activating obs = do
  reads (λ d. guard (primary obs).valid invalid_record)
  txn ← reads (load_transaction (primary obs).id)
  remembered ← reads (λ d. snapshot_active_before txn obs.active)
  time ← now
  save_transaction (record remembered {
    state = TransactionState.activating;
    step = bytes "activating";
    updated_at = time;
  })

unfoldable pub fail_views : List TransactionView → M (Unit {0})
unfolding persist_txn_state
fail_views [] = pure tt
fail_views (v ∷ vs) = do
  if not v.valid || not (failable v.state)
      then pure tt
      else persist_txn_state v.id TransactionState.failed Code.interrupted
  fail_views vs

-- failFailableExtras
unfoldable pub fail_failable_extras : Observation → M (Unit {0})
unfolding fail_views
fail_failable_extras obs = fail_views obs.transactions

-- invokeOnPrimary
unfoldable pub invoke_on_primary :
    Observation → (InstallTransaction → M InstallTransaction) → M (Unit {0})
invoke_on_primary obs f = do
  reads (λ d. guard (primary obs).valid invalid_record)
  txn ← reads (load_transaction (primary obs).id)
  f txn
  pure tt

-- The directory is there and empty, as os.Remove needs it; a missing one is no error.
removable_tree : Err → Option Tree → Result Err Bool
removable_tree occupied none = ok false
removable_tree occupied (some t) =
    if not t.directory then err io else if dir_empty t then ok true else err occupied

-- removeEmptyStaging
unfoldable pub remove_empty_staging : Observation → M (Unit {0})
unfolding removable_tree
remove_empty_staging obs =
    let id = (primary obs).id in
    if not (primary obs).valid then pure tt else (do
      reads (λ d. parse_transaction_id id)
      there ← reads (λ d. removable_tree staging_occupied (find id d.staging))
      if there then write (λ d. record d { staging = remove id d.staging }) else pure tt)

-- removeEmptyGeneration
unfoldable pub remove_empty_generation : Observation → M (Unit {0})
unfolding removable_tree
remove_empty_generation obs =
    let id = (primary obs).generation_id in
    if not (primary obs).valid then pure tt else (do
      reads (λ d. parse_generation_id id)
      there ← reads (λ d. removable_tree generation_occupied (find id d.generations))
      if there then write (λ d. record d { generations = remove id d.generations }) else pure tt)

unfoldable pub moved : Bytes → Tree → Disk → Disk
moved id t d = record d { staging = remove id d.staging; failed = (id, t) ∷ d.failed }

-- renameDirectory from staging/ to failed/
unfoldable pub rename_failed : Bytes → Option Tree → M (Unit {0})
unfolding moved
rename_failed id none = pure tt
rename_failed id (some t) = do
  write (λ d. d)
  reads (λ d. guard (not d.reparse) reparse_point)
  reads (λ d. reject_reparse d (some t))
  reads (λ d. elim (find id d.failed) [ none ↦ ok tt | some other ↦ err publish_conflict ])
  write (moved id t)

-- moveStagingToFailed
unfoldable pub move_staging_to_failed : Observation → M (Unit {0})
unfolding rename_failed
move_staging_to_failed obs =
    let id = (primary obs).id in
    if not (primary obs).valid then pure tt else (do
      reads (λ d. parse_transaction_id id)
      tree ← reads (λ d. ok (find id d.staging))
      rename_failed id tree)

-- removeProvenStaging
unfoldable pub remove_proven_staging : Observation → M (Unit {0})
remove_proven_staging obs =
    let id = (primary obs).id in
    if not (primary obs).valid || not obs.staging.lineage_match || not obs.generation.is_sealed
    then pure tt
    else (do
      reads (λ d. parse_transaction_id id)
      write (λ d. record d { staging = remove id d.staging }))

unfoldable pub execute_action : Action → Observation → RecoveryDecision → M (Unit {0})
unfolding persist_primary_state remove_empty_staging remove_empty_generation move_staging_to_failed
    remove_proven_staging persist_activating invoke_on_primary fail_failable_extras
execute_action Action.none obs d = persist_primary_state obs d.next_state d.error_code
execute_action Action.remove_empty_staging obs d = do
  remove_empty_staging obs
  persist_primary_state obs d.next_state d.error_code
execute_action Action.remove_empty_generation obs d = do
  remove_empty_generation obs
  persist_primary_state obs d.next_state d.error_code
execute_action Action.move_staging_to_failed obs d = do
  move_staging_to_failed obs
  persist_primary_state obs d.next_state d.error_code
execute_action Action.gc_staging obs d = remove_proven_staging obs
execute_action Action.persist_published obs d = persist_primary_state obs d.next_state d.error_code
execute_action Action.persist_activating obs d = persist_activating obs
execute_action Action.activate obs d = invoke_on_primary obs activate
execute_action Action.fail_failable_extras obs d = fail_failable_extras obs
execute_action Action.reconcile_env obs d = do
  persist_primary_state obs d.next_state d.error_code
  invoke_on_primary obs (λ txn. reconcile_environment txn.id)
execute_action Action.commit obs d =
    persist_primary_state obs TransactionState.committed d.error_code
execute_action _ obs d = pure tt

-- Execute
unfoldable pub execute : Observation → RecoveryDecision → M (Unit {0})
unfolding execute_action
execute obs d = execute_action d.action obs d
