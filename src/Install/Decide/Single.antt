-- ===== src/Install/Decide/Single.antt =====
-- recovery_decide.go: decideOne and the decision for each state of the one open transaction.
use yorva.Prelude.{Bool, not, ◌&&◌, Option, none, some, is_empty, if◌then◌else◌}
use yorva.Install.Types.{
  TransactionState, Gate, Action, Code, TransactionView, is_valid, complete, Observation,
  RecoveryDecision,
}
use yorva.Install.Decide.Outcome.{
  fail_txn, fail_closed, blocked, decision, active_names, expected_predecessor, leftover_staging,
}

-- decideCreated
unfoldable pub decide_created : Observation → RecoveryDecision
unfolding fail_txn fail_closed
decide_created obs =
    if not staging.present && generation.present
    then (if generation.empty
        then fail_txn Code.unset Action.remove_empty_generation
        else if generation.lineage_match
        then fail_txn Code.unset Action.none
        else fail_closed Code.inconsistent)
    else if not staging.present && not generation.present
    then fail_txn Code.unset Action.none
    else if staging.present && not generation.present
    then (if staging.empty
        then fail_txn Code.unset Action.remove_empty_staging
        else fail_txn Code.unset Action.move_staging_to_failed)
    else fail_closed Code.inconsistent
  where
    open obs use {staging, generation}

-- decideBuilding
unfoldable pub decide_building : Observation → RecoveryDecision
unfolding fail_txn fail_closed
decide_building obs =
    if not staging.present && generation.present
    then (if generation.empty
        then fail_txn Code.interrupted Action.remove_empty_generation
        else if generation.lineage_match
        then fail_txn Code.interrupted Action.none
        else fail_closed Code.inconsistent)
    else if not staging.present && not generation.present
    then fail_txn Code.interrupted Action.none
    else if staging.present && not generation.present
    then (if staging.empty
        then fail_txn Code.interrupted Action.remove_empty_staging
        else fail_txn Code.interrupted Action.move_staging_to_failed)
    else fail_closed Code.inconsistent
  where
    open obs use {staging, generation}

-- decideSealed
unfoldable pub decide_sealed : Observation → RecoveryDecision
unfolding fail_txn fail_closed blocked
decide_sealed obs =
    if generation.present
      && generation.is_sealed
      && generation.lineage_match
      && staging.present
      && not staging.empty
      && staging.is_sealed
      && staging.lineage_match
    then blocked
    else if generation.present
        && not (is_empty generation.lineage_id)
        && not generation.lineage_match
    then blocked
    else if not staging.present
        && generation.present
        && generation.is_sealed
        && generation.lineage_match
    then decision Gate.reconciling TransactionState.published Action.persist_published
    else if staging.present && staging.empty && generation.present && generation.is_sealed
        && generation.lineage_match
    then decision Gate.reconciling TransactionState.published Action.remove_empty_staging
    else if staging.present && staging.is_sealed && staging.lineage_match && not generation.present
    then fail_txn Code.interrupted Action.move_staging_to_failed
    else if staging.present && not staging.is_sealed && not generation.present
    then fail_txn Code.seal_invalid Action.move_staging_to_failed
    else fail_closed Code.inconsistent
  where
    open obs use {staging, generation}

-- The guard that decidePublished and decideActivating open with.
abbrev pub generation_proven : Observation → Bool
generation_proven obs =
    obs.generation.present && obs.generation.is_sealed && obs.generation.lineage_match

published_after_staging : Option Action → Observation → TransactionView → RecoveryDecision
unfolding fail_closed blocked
published_after_staging (some action) obs txn =
    decision Gate.reconciling TransactionState.unset action
published_after_staging none obs txn =
    if active_names obs.active txn.generation_id
    then decision Gate.reconciling TransactionState.activating Action.reconcile_env
    else if expected_predecessor obs.active txn
    then decision Gate.reconciling TransactionState.activating Action.persist_activating
    else if is_valid obs.active
    then blocked
    else fail_closed Code.inconsistent

-- decidePublished
unfoldable pub decide_published : Observation → TransactionView → RecoveryDecision
unfolding fail_closed published_after_staging leftover_staging
decide_published obs txn =
    if not (generation_proven obs)
    then fail_closed Code.inconsistent
    else published_after_staging (leftover_staging obs) obs txn

-- decideActivating
unfoldable pub decide_activating : Observation → TransactionView → RecoveryDecision
unfolding fail_closed blocked
decide_activating obs txn =
    if not (generation_proven obs)
    then fail_closed Code.inconsistent
    else if is_valid obs.active
        && not (active_names obs.active txn.generation_id)
        && not (expected_predecessor obs.active txn)
    then blocked
    else if active_names obs.active txn.generation_id
    then (if complete obs.environment
        then decision Gate.reconciling TransactionState.committed Action.commit
        else decision Gate.reconciling TransactionState.unset Action.reconcile_env)
    else if expected_predecessor obs.active txn
    then decision Gate.reconciling TransactionState.unset Action.activate
    else fail_closed Code.inconsistent

unfoldable pub decide_by_state : TransactionState → Observation → TransactionView → RecoveryDecision
unfolding decide_created decide_building decide_sealed decide_published decide_activating blocked
decide_by_state TransactionState.created obs txn = decide_created obs
decide_by_state TransactionState.building obs txn = decide_building obs
decide_by_state TransactionState.sealed obs txn = decide_sealed obs
decide_by_state TransactionState.published obs txn = decide_published obs txn
decide_by_state TransactionState.activating obs txn = decide_activating obs txn
decide_by_state _ obs txn = blocked

-- decideOne
unfoldable pub decide_one : Observation → TransactionView → RecoveryDecision
unfolding decide_by_state
decide_one obs txn = decide_by_state txn.state obs txn
