-- ===== src/Examples/Recovery.antt =====
-- Runs of recovery from disks on which an installation was interrupted.
use yorva.Prelude.{Option, some, none, List, [], ◌∷◌, ok, map, refl, ◌≡◌}
use yorva.Install.Types.{TransactionState, Gate, Action}
use yorva.Install.Disk.{Disk}
use yorva.Install.Recover.{recover_with}
use yorva.Examples.Samples.{building, sealed, disk_with, gen_id, sealed_tree}

abbrev states : Disk → List (Option TransactionState)
states d = map (λ f. elim f.content [ none ↦ none | some t ↦ some t.state ]) d.transactions

abbrev building_disk : Disk
building_disk = disk_with building []

abbrev sealed_disk : Disk
sealed_disk = disk_with sealed ((gen_id, sealed_tree) ∷ [])

-- A build that was interrupted is failed, and a sealed generation is committed.
recover_states :
    (states (recover_with (ok tt) building_disk).1 ≡ some TransactionState.failed ∷ [])
    × (states (recover_with (ok tt) sealed_disk).1 ≡ some TransactionState.committed ∷ [])
unfolding yorva.Install.Decide.Outcome.active_names yorva.Install.Decide.Outcome.before_kind
    yorva.Install.Decide.Outcome.expected_predecessor yorva.Install.Decide.Outcome.leftover_staging
    yorva.Install.Decide.Recovery.names_generation yorva.Install.Decide.Recovery.pointer_unrelated
    yorva.Install.Decide.Recovery.committed_active yorva.Install.Decide.Recovery.failed_but_active
    yorva.Install.Decide.Recovery.decide_terminal yorva.Install.Decide.Recovery.classify
    yorva.Install.Decide.Recovery.decide_among yorva.Install.Decide.Recovery.decide_recovery
    yorva.Install.Decide.Single.decide_one yorva.Install.Disk.pure yorva.Install.Disk.raise
    yorva.Install.Disk.reads yorva.Install.Disk.write yorva.Install.Disk.find
    yorva.Install.Environment.expand_env_path yorva.Install.Environment.same_env_path
    yorva.Install.Environment.is_removable_bin yorva.Install.Environment.path_has_desired_prefix
    yorva.Install.Environment.keep_entries yorva.Install.Environment.drops_entry
    yorva.Install.Environment.without_desired yorva.Install.Environment.compute_environment_plan
    yorva.Install.Environment.plan_observation yorva.Install.Environment.apply_plan
    yorva.Install.Execute.execute_action yorva.Install.Execute.execute
    yorva.Install.Gc.Collect.listed_known yorva.Install.Gc.Collect.gc_candidates
    yorva.Install.Gc.Collect.collect yorva.Install.Gc.Retention.area_eq
    yorva.Install.Gc.Retention.is_place yorva.Install.Gc.Retention.has_place
    yorva.Install.Gc.Retention.load_valid_transactions yorva.Install.Gc.Retention.txn_time
    yorva.Install.Gc.Retention.lineage_proven yorva.Install.Gc.Retention.latest
    yorva.Install.Gc.Retention.retention_set yorva.Install.Ids.all_in_alphabet
    yorva.Install.Ids.new_closed_id yorva.Install.Ids.occupies_reserved_txn_name
    yorva.Install.Ids.transaction_file_name yorva.Install.Manager.Activate.verify_txn_tree
    yorva.Install.Manager.Activate.active_record_of yorva.Install.Manager.Activate.enter_activating
    yorva.Install.Manager.Activate.activate_from yorva.Install.Manager.Activate.activate
    yorva.Install.Manager.Persist.outcome yorva.Install.Manager.Persist.persist
    yorva.Install.Manager.Persist.fail yorva.Install.Manager.Persist.write_active
    yorva.Install.Manager.Reconcile.reconcile_environment yorva.Install.Observe.open_views
    yorva.Install.Observe.primary_txn yorva.Install.Observe.dir_empty
    yorva.Install.Observe.observe_tree yorva.Install.Observe.removable_bins
    yorva.Install.Observe.policy_from_active yorva.Install.Observe.observe_environment
    yorva.Install.Observe.scan_unknown_directories yorva.Install.Observe.observe
    yorva.Install.Paths.require_exact_rel yorva.Install.Paths.validate_staging_rel
    yorva.Install.Paths.validate_generation_rel yorva.Install.Pointer.snapshot_active_before
    yorva.Install.Pointer.pointer_names_txn yorva.Install.Pointer.cas_allows_activate
    yorva.Install.Recover.final_gate yorva.Install.Recover.rank_state
    yorva.Install.Recover.action_eq yorva.Install.Recover.forward_or_noop
    yorva.Install.Recover.recover_loop yorva.Install.Recover.recover_with
    yorva.Install.Seal.entry_eq yorva.Install.Seal.manifests_equal yorva.Install.Seal.reject_reparse
    yorva.Install.Seal.load_published_seal yorva.Install.Seal.verify_published_generation
    yorva.Install.Seal.verify_sealed_tree yorva.Install.Seal.load_active
    yorva.Install.Seal.active_observation yorva.Install.Seal.read_active
    yorva.Install.Store.find_file yorva.Install.Store.load_transaction yorva.Install.Store.put_file
    yorva.Install.Store.write_transaction yorva.Install.Store.save_transaction
    yorva.Install.Store.has_nonterminal yorva.Install.Store.has_committed
    yorva.Install.Transaction.new_created_transaction yorva.Install.Transaction.view
    yorva.Install.Types.is_missing yorva.Install.Types.is_invalid yorva.Install.Types.is_valid
    yorva.Install.Validate.is_blank yorva.Install.Validate.validate_active_record yorva.Prelude.same
    yorva.Prelude.has_prefix yorva.Prelude.contains_byte yorva.Install.Disk.◌>>=◌
recover_states = (refl, refl)
