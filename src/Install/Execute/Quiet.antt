-- ===== src/Install/Execute/Quiet.antt =====
-- Everything that recovery does, but for replacing the active pointer, keeps any relation that the
-- writes of records, trees and the environment keep.
use yorva.Prelude.{
  Bool, true, false, ◌≡◌, Option, none, some, List, [], ◌∷◌, Bytes, Result, if◌then◌else◌,
}
use yorva.Install.Types.{
  TransactionState, Code, Action, TransactionView, Observation, RecoveryDecision, ActivePointer,
}
use yorva.Install.Records.{Err, InstallTransaction, ActiveRecord}
use yorva.Install.Environment.{ObservedEnvironment, EnvironmentPlan}
use yorva.Install.Disk.{Disk, Tree, TransactionFile, M, pure, raise, reads, ◌>>=◌, write, remove}
use yorva.Install.Disk.Frame.{
  IsFrame, Frames, Frames-pure, Frames-raise, Frames-reads, Frames-bind, Frames-if, Frames-write,
}
use yorva.Install.Store.{save_transaction, ensure_control, write_transaction}
use yorva.Install.Manager.Persist.{outcome, persist, now}
use yorva.Install.Manager.Activate.{mark_activating, enter_activating, pointer}
use yorva.Install.Manager.Reconcile.{
  write_plan, reconcile_once, commit_observed, reconcile_environment,
}
use yorva.Install.Gc.Retention.{Place, Area}
use yorva.Install.Gc.Collect.{remove_tree, collect_from, collect}
use yorva.Install.Execute.{
  persist_txn_state, persist_primary_state, persist_activating, invoke_on_primary,
  remove_empty_staging, remove_empty_generation, move_staging_to_failed, remove_proven_staging,
  fail_failable_extras, fail_views, moved, rename_failed, execute_action,
}

abbrev pub is_activate : Action → Bool
is_activate Action.activate = true
is_activate _ = false

pub record IsQuiet (R : Disk → Disk → Type 0) : Type 0 where
  pub frame : IsFrame R
  pub transactions :
      (d : Disk) (files : List TransactionFile) → R d (record d { transactions = files })
  pub staging : (d : Disk) (trees : List (Bytes × Tree)) → R d (record d { staging = trees })
  pub generations :
      (d : Disk) (trees : List (Bytes × Tree)) → R d (record d { generations = trees })
  pub failed : (d : Disk) (trees : List (Bytes × Tree)) → R d (record d { failed = trees })
  pub environment : (d : Disk) (o : ObservedEnvironment) → R d (record d { environment = some o })

module _ {R : Disk → Disk → Type 0} (q : IsQuiet R) where
  quiet_pure : {A : Type 0} (a : A) → Frames R (pure a)
  quiet_pure a = Frames-pure q.frame a

  quiet_raise : {A : Type 0} (e : Err) → Frames {A = A} R (raise e)
  quiet_raise e = Frames-raise q.frame e

  quiet_reads : {A : Type 0} (f : Disk → Result Err A) → Frames R (reads f)
  quiet_reads f = Frames-reads q.frame f

  quiet_bind :
      {A B : Type 0} (m : M A) (f : A → M B)
      → Frames R m
      → ((a : A) → Frames R (f a))
      → Frames R (m >>= f)
  quiet_bind m f h k = Frames-bind q.frame m f h k

  quiet_if :
      {A : Type 0} (b : Bool) (m n : M A) → Frames R m → Frames R n → Frames R (if b then m else n)
  quiet_if b m n h k = Frames-if q.frame b m n h k

  quiet_idle : Frames R (write (λ d. d))
  quiet_idle = Frames-write q.frame (λ d. d) q.frame.same

  Frames-outcome : {A : Type 0} (m : M A) → Frames R m → Frames R (outcome m)
  unfolding outcome
  Frames-outcome m h = record { at = h.at }

  ruleset quiet_rules =
      (quiet_pure, quiet_raise, quiet_reads, quiet_bind, quiet_if, quiet_idle, Frames-outcome)

  Frames-write_transaction : (txn : InstallTransaction) → Frames R (write_transaction txn)
  unfolding write_transaction
  Frames-write_transaction txn = Frames-write q.frame _ (λ d. q.transactions d _)

  pub Frames-ensure_control : Frames R ensure_control
  unfolding ensure_control
  Frames-ensure_control = search quiet_rules

  Frames-save_transaction : (txn : InstallTransaction) → Frames R (save_transaction txn)
  unfolding save_transaction
  Frames-save_transaction txn =
      search (quiet_rules, Frames-write_transaction, Frames-ensure_control) depth 12

  pub Frames-persist : (txn : InstallTransaction) → Frames R (persist txn)
  unfolding persist
  Frames-persist txn = search (quiet_rules, Frames-save_transaction)

  pub Frames-now : Frames R now
  unfolding now
  Frames-now = quiet_reads _

  pub Frames-pointer : Frames R pointer
  unfolding pointer
  Frames-pointer = quiet_reads _

  ruleset record_rules =
      (quiet_rules, Frames-save_transaction, Frames-persist, Frames-now, Frames-pointer)

  pub Frames-mark_activating : (txn : InstallTransaction) → Frames R (mark_activating txn)
  unfolding mark_activating
  Frames-mark_activating txn = search record_rules

  pub Frames-enter_activating :
      (txn : InstallTransaction) (p : ActivePointer) → Frames R (enter_activating txn p)
  unfolding enter_activating
  Frames-enter_activating txn p = search (record_rules, Frames-mark_activating)

  Frames-remove_tree : (p : Place) → Frames R (write (remove_tree p))
  unfolding remove_tree
  Frames-remove_tree (Area.staging, n) = Frames-write q.frame _ (λ d. q.staging d _)
  Frames-remove_tree (Area.failed, n) = Frames-write q.frame _ (λ d. q.failed d _)
  Frames-remove_tree (Area.generations, n) = Frames-write q.frame _ (λ d. q.generations d _)

  Frames-collect_from : (protected places : List Place) → Frames R (collect_from protected places)
  unfolding collect_from
  Frames-collect_from protected [] = quiet_pure tt
  Frames-collect_from protected (p ∷ ps) = quiet_bind _ _ (quiet_reads _) λ kept.
      quiet_bind _ _ (quiet_if kept _ _ (quiet_pure tt) (Frames-remove_tree p))
        λ _. Frames-collect_from protected ps

  pub Frames-collect : Frames R collect
  unfolding collect
  Frames-collect = search (quiet_rules, Frames-collect_from)

  Frames-set_environment :
      (f : ObservedEnvironment → ObservedEnvironment)
      → Frames R (
          write
            (λ d. elim d.environment [ none ↦ d | some o ↦ record d { environment = some (f o) } ]))
  Frames-set_environment f = Frames-write q.frame _ (λ d. set d.environment d)
    where
      set :
          (e : Option ObservedEnvironment) (d : Disk)
          → R d (elim e [ none ↦ d | some o ↦ record d { environment = some (f o) } ])
      set none d = q.frame.same d
      set (some o) d = q.environment d (f o)

  Frames-write_plan : (plan : EnvironmentPlan) → Frames R (write_plan plan)
  unfolding write_plan
  Frames-write_plan plan =
      quiet_bind _ _ (quiet_if _ _ _ (Frames-set_environment _) (quiet_pure tt))
        (λ _. quiet_if _ _ _ (Frames-set_environment _) (quiet_pure tt))

  Frames-reconcile_once : (rec : ActiveRecord) (stale : Bool) → Frames R (reconcile_once rec stale)
  unfolding reconcile_once
  Frames-reconcile_once rec stale = search (quiet_rules, Frames-write_plan) depth 9

  Frames-commit_observed :
      (rec : ActiveRecord) (txn : InstallTransaction) → Frames R (commit_observed rec txn)
  unfolding commit_observed
  Frames-commit_observed rec txn = search (record_rules, Frames-collect) depth 9

  Frames-reconcile_environment : (id : Bytes) → Frames R (reconcile_environment id)
  unfolding reconcile_environment
  Frames-reconcile_environment id =
      search (record_rules, Frames-reconcile_once, Frames-commit_observed) depth 12

  Frames-persist_primary_state :
      (obs : Observation) (s : TransactionState) (code : Code)
      → Frames R (persist_primary_state obs s code)
  unfolding persist_primary_state
  Frames-persist_primary_state obs s code = search record_rules depth 9

  Frames-persist_activating : (obs : Observation) → Frames R (persist_activating obs)
  unfolding persist_activating
  Frames-persist_activating obs = search record_rules depth 9

  fail_views-Frames : (vs : List TransactionView) → Frames R (fail_views vs)
  unfolding fail_views persist_txn_state
  fail_views-Frames [] = quiet_pure tt
  fail_views-Frames (v ∷ vs) =
      quiet_bind _ _ (search record_rules depth 9) (λ _. fail_views-Frames vs)

  Frames-remove_empty_staging : (obs : Observation) → Frames R (remove_empty_staging obs)
  unfolding remove_empty_staging
  Frames-remove_empty_staging obs = quiet_if _ _ _ (quiet_pure tt) (
      quiet_bind _ _ (quiet_reads _) λ _.
        quiet_bind _ _ (quiet_reads _)
          λ there. quiet_if there _ _ (Frames-write q.frame _ (λ d. q.staging d _)) (quiet_pure tt))

  Frames-remove_empty_generation : (obs : Observation) → Frames R (remove_empty_generation obs)
  unfolding remove_empty_generation
  Frames-remove_empty_generation obs = quiet_if _ _ _ (quiet_pure tt) (
      quiet_bind _ _ (quiet_reads _) λ _. quiet_bind _ _ (quiet_reads _) λ there.
        quiet_if there _ _ (Frames-write q.frame _ (λ d. q.generations d _)) (quiet_pure tt))

  Frames-moved : (id : Bytes) (t : Tree) → Frames R (write (moved id t))
  unfolding moved
  Frames-moved id t = Frames-write q.frame _ λ d.
      q.frame.chain d _ _ (q.staging d _) (q.failed (record d { staging = remove id d.staging }) _)

  Frames-rename_failed : (id : Bytes) (tree : Option Tree) → Frames R (rename_failed id tree)
  unfolding rename_failed
  Frames-rename_failed id none = quiet_pure tt
  Frames-rename_failed id (some t) = search (quiet_rules, Frames-moved) depth 9

  Frames-move_staging_to_failed : (obs : Observation) → Frames R (move_staging_to_failed obs)
  unfolding move_staging_to_failed
  Frames-move_staging_to_failed obs = search (quiet_rules, Frames-rename_failed) depth 9

  Frames-remove_proven_staging : (obs : Observation) → Frames R (remove_proven_staging obs)
  unfolding remove_proven_staging
  Frames-remove_proven_staging obs =
      quiet_if _ _ _ (quiet_pure tt)
        (quiet_bind _ _ (quiet_reads _) λ _. Frames-write q.frame _ (λ d. q.staging d _))

  Frames-invoke_on_primary :
      (obs : Observation) (f : InstallTransaction → M InstallTransaction)
      → ((txn : InstallTransaction) → Frames R (f txn))
      → Frames R (invoke_on_primary obs f)
  unfolding invoke_on_primary
  Frames-invoke_on_primary obs f h =
      quiet_bind _ _ (quiet_reads _)
        λ _. quiet_bind _ _ (quiet_reads _) λ txn. quiet_bind _ _ (h txn) λ _. quiet_pure tt

  ruleset step_rules = (
    Frames-persist_primary_state, Frames-persist_activating, Frames-remove_empty_staging,
    Frames-remove_empty_generation, Frames-move_staging_to_failed, Frames-remove_proven_staging,
    fail_views-Frames,
  )

  -- Every action but the one that activates.
  pub Frames-execute_action :
      (a : Action) (obs : Observation) (d : RecoveryDecision)
      → is_activate a ≡ false
      → Frames R (execute_action a obs d)
  unfolding execute_action fail_failable_extras
  Frames-execute_action Action.activate obs d h = cc
  Frames-execute_action Action.reconcile_env obs d h =
      quiet_bind _ _ (Frames-persist_primary_state obs _ _)
        (λ _. Frames-invoke_on_primary obs _ (λ txn. Frames-reconcile_environment txn.id))
  Frames-execute_action Action.fail_failable_extras obs d h = fail_views-Frames obs.transactions
  Frames-execute_action Action.remove_empty_staging obs d h = search (quiet_rules, step_rules)
  Frames-execute_action Action.remove_empty_generation obs d h = search (quiet_rules, step_rules)
  Frames-execute_action Action.move_staging_to_failed obs d h = search (quiet_rules, step_rules)
  Frames-execute_action Action.none obs d h = search step_rules
  Frames-execute_action Action.gc_staging obs d h = search step_rules
  Frames-execute_action Action.persist_published obs d h = search step_rules
  Frames-execute_action Action.persist_activating obs d h = search step_rules
  Frames-execute_action Action.commit obs d h = search step_rules
  Frames-execute_action Action.fail_transaction obs d h = quiet_pure tt
  Frames-execute_action Action.diagnose_retain obs d h = quiet_pure tt
  Frames-execute_action Action.block_unsafe obs d h = quiet_pure tt
