-- ===== src/Examples/Decisions.antt =====
-- Sample observations, and the statements on recovery's decisions at them.
use yorva.Prelude.{◌⊎◌, true, false, refl, ◌≡◌, [], ◌∷◌, same}
use yorva.Install.Types.{
  TransactionState, Action, ActivePointer, TreeObservation, Observation, EnvironmentObservation,
  is_invalid, is_valid, is_missing,
}
use yorva.Install.Transaction.{view}
use yorva.Install.Records.{InstallTransaction}
use yorva.Install.Observe.{no_tree}
use yorva.Install.Decide.Outcome.{expected_predecessor, active_names}
use yorva.Install.Decide.Recovery.{decide_recovery, decide_among, classify}
use yorva.Install.Decide.Failing.{MarksOne, MarksExtras, fail_only-Unbuilt}
use yorva.Install.Decide.Safety.{activate_iff, commit_needs_active, MayCommit}
use yorva.Install.Decide.Environment.{environment_only_finishes, SameButEnvironment}
use yorva.Examples.Samples.{created, sealed, gen_id, no_pointer, pointer_there}

abbrev activating : InstallTransaction
activating = record sealed { state = TransactionState.activating }

abbrev sealed_observed : TreeObservation
sealed_observed = record {
  present = true;
  empty = false;
  is_sealed = true;
  lineage_match = true;
  lineage_id = gen_id;
}

abbrev observed : InstallTransaction → ActivePointer → Observation
observed txn pointer = record {
  transactions = view txn ∷ [];
  staging = no_tree;
  generation = sealed_observed;
  unknown_directories = [];
  reserved_id_collision = false;
  active = pointer;
  environment = record { hermes_home_ok = true; path_ok = true };
}

activate_iff_example : (decide_recovery (observed activating no_pointer)).action ≡ Action.activate
unfolding view is_invalid is_valid expected_predecessor is_missing same active_names
activate_iff_example =
    (activate_iff (observed activating no_pointer)).1
      (view activating, refl, refl, (refl, refl, refl, refl))

commit_needs_active_example : MayCommit (observed activating pointer_there)
unfolding decide_recovery decide_among is_invalid classify view is_valid active_names same
commit_needs_active_example = commit_needs_active (observed activating pointer_there) refl

abbrev only_created : Observation
only_created = record (observed created no_pointer) { generation = no_tree }

fail_only-Unbuilt_example : MarksOne only_created ⊎ MarksExtras only_created
unfolding decide_recovery decide_among is_invalid classify view
fail_only-Unbuilt_example = fail_only-Unbuilt only_created refl

abbrev nothing_ok : EnvironmentObservation
nothing_ok = record { hermes_home_ok = false; path_ok = false }

environment_only_finishes_example :
    SameButEnvironment
      (decide_recovery (observed activating pointer_there))
      (decide_recovery (record (observed activating pointer_there) { environment = nothing_ok }))
environment_only_finishes_example =
    environment_only_finishes (observed activating pointer_there) nothing_ok
