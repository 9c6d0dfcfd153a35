-- ===== src/Upgrade/Plan.antt =====
-- plan.go: BuildUpgradePlan.
pub mod Complete
pub mod Available
use yorva.Prelude.{Bool, true, false, not, ◌&&◌, ◌||◌, List, [], ◌∷◌, if◌then◌else◌}
use yorva.Upgrade.Identity.{SnapshotIdentity, identity_eq}
use yorva.Upgrade.Policy.{
  ManagedState, is_managed, ActivePointerObservation, SealedGenerationObservation, exact, names,
  TargetObservation, InventoryObservation, ProtectionPointObservation, CompatibilityRecord,
  PostcheckQualification, Postcheck, Conflict, conflicts, required_postchecks,
}
use yorva.Upgrade.Reasons.{ReasonCode, Assessment, new_assessment}
use yorva.Upgrade.Assess.{
  assess_managed, assess_pointer, assess_state, assess_current, assess_names, assess_target,
  target_exact, assess_inventory, assess_point, assess_compatibility, assess_postchecks,
}

pub data UpgradeAvailability : Type 0 where
  available up_to_date blocked unknown : UpgradeAvailability

pub record UpgradePlanInput : Type 0 where
  pub managed : ManagedState
  pub active : ActivePointerObservation
  pub current : SealedGenerationObservation
  pub target : TargetObservation
  pub inventory : InventoryObservation
  pub protection_point : ProtectionPointObservation
  pub compatibility : CompatibilityRecord
  pub postcheck_policy : PostcheckQualification

pub record UpgradePlan : Type 0 where
  pub availability : UpgradeAvailability
  pub current : SnapshotIdentity
  pub target : SnapshotIdentity
  pub plan_evidence_complete : Bool
  pub rollback_eligible : Bool
  pub upgrade_mutation_qualified : Bool
  pub rollback_mutation_qualified : Bool
  pub reasons : List ReasonCode
  pub plan_conflicts : List Conflict
  pub plan_postchecks : List Postcheck

-- The assessment up to the early return.
unfoldable pub assess_versions : UpgradePlanInput → Assessment
assess_versions input =
    assess_state input.target.state (assess_target input.target) ReasonCode.target_unknown
      ReasonCode.target_identity_invalid
      (assess_names input.active input.current (
        assess_state input.current.state (assess_current input.current)
          ReasonCode.current_seal_unknown ReasonCode.current_seal_invalid
          (assess_pointer input.active.state (assess_managed input.managed new_assessment))))

-- The condition of the early return.
unfoldable pub already_active : UpgradePlanInput → Bool
already_active input =
    is_managed input.managed
    && exact input.current
    && names input.active input.current
    && target_exact input.target
    && identity_eq input.current.identity input.target.compiled

-- The assessment behind it.
unfoldable pub assess_upgrade : UpgradePlanInput → Assessment
assess_upgrade input =
    assess_postchecks input.postcheck_policy (required_postchecks input.inventory.features) (
      assess_compatibility input.compatibility input.current.identity input.target.compiled true (
        assess_point input.protection_point ReasonCode.protection_point_unknown
          ReasonCode.protection_point_unavailable
          (assess_inventory input.inventory (assess_versions input))))

-- The end of BuildUpgradePlan. Where no reason was found, assessCompatibility found none either.
unfoldable pub conclude : Assessment → UpgradePlan → UpgradePlan
conclude a plan = elim a.reasons [
  | [] ↦ record plan {
    availability = UpgradeAvailability.available;
    plan_evidence_complete = true;
    rollback_eligible = true;
  }
  | r ∷ rs ↦ record plan {
    availability =
        if a.is_unknown then UpgradeAvailability.unknown else UpgradeAvailability.blocked;
    reasons = r ∷ rs;
  }
]

-- The fields that every plan of an input starts from.
unfoldable pub base_plan : UpgradePlanInput → UpgradePlan
base_plan input = record {
  availability = UpgradeAvailability.up_to_date;
  current = input.current.identity;
  target = input.target.compiled;
  plan_evidence_complete = false;
  rollback_eligible = false;
  upgrade_mutation_qualified = false;
  rollback_mutation_qualified = false;
  reasons = [];
  plan_conflicts = conflicts;
  plan_postchecks = required_postchecks input.inventory.features;
}

-- BuildUpgradePlan
unfoldable pub build_upgrade_plan : UpgradePlanInput → UpgradePlan
unfolding base_plan
build_upgrade_plan input =
    if already_active input
    then record (base_plan input) { reasons = ReasonCode.target_already_active ∷ [] }
    else conclude (assess_upgrade input) (base_plan input)

-- UpgradePlan.UpgradeExecutable
unfoldable pub upgrade_executable : UpgradePlan → Bool
upgrade_executable p = p.plan_evidence_complete && p.upgrade_mutation_qualified

-- UpgradePlan.RollbackExecutable
unfoldable pub upgrade_rollback_executable : UpgradePlan → Bool
upgrade_rollback_executable p =
    p.plan_evidence_complete && p.rollback_eligible && p.rollback_mutation_qualified
