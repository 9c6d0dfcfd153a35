-- ===== src/Upgrade/Rollback.antt =====
-- rollback.go: AssessRollback.
pub mod Eligible
use yorva.Prelude.{
  Bool, true, false, not, ◌&&◌, ◌||◌, List, [], ◌∷◌, is_empty, is_ok, same, if◌then◌else◌,
}
use yorva.Upgrade.Identity.{validate_identity}
use yorva.Upgrade.Policy.{
  EvidenceState, is_verified, ManagedState, ActivePointerObservation, SealedGenerationObservation,
  exact, InventoryObservation, ProtectionPointObservation, CompatibilityRecord,
  PostcheckQualification, Postcheck, Conflict, conflicts, required_postchecks,
}
use yorva.Upgrade.Reasons.{ReasonCode, Assessment, new_assessment, add, add_unknown}
use yorva.Upgrade.Assess.{
  require, assess_managed, assess_pointer, assess_names, assess_inventory, assess_point,
  assess_compatibility, assess_postchecks,
}

pub data RollbackEligibility : Type 0 where
  eligible ineligible unknown : RollbackEligibility

pub record RollbackPlanInput : Type 0 where
  pub managed : ManagedState
  pub active : ActivePointerObservation
  pub current : SealedGenerationObservation
  pub previous : SealedGenerationObservation
  pub inventory : InventoryObservation
  pub compatibility : CompatibilityRecord
  pub protection_restore : ProtectionPointObservation
  pub postcheck_policy : PostcheckQualification

pub record RollbackPlan : Type 0 where
  pub eligibility : RollbackEligibility
  pub plan_evidence_complete : Bool
  pub rollback_mutation_qualified : Bool
  pub reasons : List ReasonCode
  pub plan_conflicts : List Conflict
  pub plan_postchecks : List Postcheck

unfoldable assess_current_by : EvidenceState → SealedGenerationObservation → Assessment → Assessment
unfolding require add add_unknown
assess_current_by EvidenceState.verified g a =
    if exact g
    then a
    else add ReasonCode.current_seal_invalid
        (require (is_ok (validate_identity g.identity)) ReasonCode.current_identity_invalid a)
assess_current_by EvidenceState.unknown g a = add_unknown ReasonCode.current_seal_unknown a
assess_current_by _ g a = add ReasonCode.current_seal_invalid a

unfoldable assess_previous_by :
    EvidenceState → SealedGenerationObservation → Assessment → Assessment
unfolding require add add_unknown
assess_previous_by EvidenceState.verified g a =
    require (exact g) ReasonCode.previous_generation_invalid a
assess_previous_by EvidenceState.unknown g a = add_unknown ReasonCode.previous_generation_unknown a
assess_previous_by EvidenceState.missing g a = add ReasonCode.previous_generation_missing a
assess_previous_by _ g a = add ReasonCode.previous_generation_invalid a

-- assessRollbackGeneration, of the current generation and of the previous one
unfoldable pub assess_rollback_generation :
    Bool → SealedGenerationObservation → Assessment → Assessment
unfolding assess_current_by assess_previous_by
assess_rollback_generation false g a = assess_current_by g.state g a
assess_rollback_generation true g a = assess_previous_by g.state g a

-- The two generations have to differ.
unfoldable pub assess_distinct :
    SealedGenerationObservation → SealedGenerationObservation → Assessment → Assessment
unfolding require
assess_distinct current previous a =
    require
      (not
        (not (is_empty current.generation_id) && same current.generation_id previous.generation_id))
      ReasonCode.previous_generation_same a

-- The protection point is assessed only where a verified record asks for its restoration.
unfoldable pub assess_restore :
    CompatibilityRecord → ProtectionPointObservation → Assessment → Assessment
unfolding assess_point
assess_restore r p a =
    if is_verified r.state && r.protection_restore_required
    then assess_point p ReasonCode.protection_restore_unknown
        ReasonCode.protection_restore_incomplete a
    else a

unfoldable pub assess_generations : RollbackPlanInput → Assessment
assess_generations input = assess_distinct input.current input.previous (
    assess_names input.active input.current (
      assess_rollback_generation true input.previous (
        assess_rollback_generation false input.current
          (assess_pointer input.active.state (assess_managed input.managed new_assessment)))))

unfoldable pub assess_rollback_evidence : RollbackPlanInput → Assessment
assess_rollback_evidence input =
    assess_postchecks input.postcheck_policy (required_postchecks input.inventory.features) (
      assess_restore input.compatibility input.protection_restore (
        assess_compatibility input.compatibility input.previous.identity input.current.identity
          false (assess_inventory input.inventory (assess_generations input))))

unfoldable rollback_plan : List Postcheck → Assessment → RollbackPlan
rollback_plan required a = elim a.reasons [
  | [] ↦ record {
    eligibility = RollbackEligibility.eligible;
    plan_evidence_complete = true;
    rollback_mutation_qualified = false;
    reasons = [];
    plan_conflicts = conflicts;
    plan_postchecks = required;
  }
  | r ∷ rs ↦ record {
    eligibility =
        if a.is_unknown then RollbackEligibility.unknown else RollbackEligibility.ineligible;
    plan_evidence_complete = false;
    rollback_mutation_qualified = false;
    reasons = r ∷ rs;
    plan_conflicts = conflicts;
    plan_postchecks = required;
  }
]

-- AssessRollback
unfoldable pub assess_rollback : RollbackPlanInput → RollbackPlan
unfolding rollback_plan
assess_rollback input =
    rollback_plan (required_postchecks input.inventory.features) (assess_rollback_evidence input)

-- RollbackPlan.RollbackExecutable
unfoldable pub rollback_executable : RollbackPlan → Bool
rollback_executable p =
    p.plan_evidence_complete
    && elim p.eligibility [ RollbackEligibility.eligible ↦ true | _ ↦ false ]
    && p.rollback_mutation_qualified
