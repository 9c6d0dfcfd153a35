-- ===== src/Upgrade/Plan/Available.antt =====
-- plan.go: the availability of an upgrade, from the evidence alone.
use yorva.Prelude.{Bool, true, false, ◌&&◌, ◌||◌, List, [], ◌∷◌, if◌then◌else◌, ◌≡◌, refl, ap, ◌∙◌}
use yorva.Prelude.{arith}
use yorva.Upgrade.Identity.{identity_eq}
use yorva.Upgrade.Policy.{
  is_managed, is_valid_pointer, ActivePointerObservation, SealedGenerationObservation, exact, names,
}
use yorva.Upgrade.Reasons.{ReasonCode, Assessment, new_assessment}
use yorva.Upgrade.Assess.{target_exact, assess_target, assess_current}
use yorva.Upgrade.Assess.Clean.{no_reason, clean}
use yorva.Upgrade.Assess.Unsure.{
  unsure_state, unsure_managed, unsure_pointer, unsure_record, unsure-assess_managed,
  unsure-assess_pointer, unsure-assess_state, unsure-assess_current, unsure-assess_names,
  unsure-assess_target, unsure-assess_inventory, unsure-assess_point, unsure-assess_postchecks,
  unsure-assess_compatibility,
}
use yorva.Upgrade.Plan.{
  UpgradeAvailability, UpgradePlanInput, UpgradePlan, assess_versions, already_active,
  assess_upgrade, conclude, base_plan, build_upgrade_plan,
}
use yorva.Upgrade.Plan.Complete.{versions_known, evidence_complete, clean-assess_upgrade}

-- Some evidence is unknown.
abbrev pub unsure_versions : UpgradePlanInput → Bool
unsure_versions input =
    unsure_state input.target.state
    || (unsure_state input.current.state
        || (unsure_pointer input.active.state || (unsure_managed input.managed || false)))

abbrev pub unsure : UpgradePlanInput → Bool
unsure input =
    unsure_state input.postcheck_policy.state
    || (unsure_record input.compatibility true
        || (unsure_state input.protection_point.state
            || (unsure_state input.inventory.state || unsure_versions input)))

unsure-assess_versions :
    (input : UpgradePlanInput) → (assess_versions input).is_unknown ≡ unsure_versions input
unfolding assess_versions
unsure-assess_versions input =
    rw
      (unsure-assess_state input.target.state (assess_target input.target) ReasonCode.target_unknown
        ReasonCode.target_identity_invalid _ (unsure-assess_target input.target _))
      (ap (λ b. unsure_state input.target.state || b)
        (unsure-assess_names input.active input.current _
          ∙ unsure-assess_state input.current.state (assess_current input.current)
              ReasonCode.current_seal_unknown ReasonCode.current_seal_invalid _
              (unsure-assess_current input.current _)
          ∙ ap (λ b. unsure_state input.current.state || b)
              (unsure-assess_pointer input.active.state _
                ∙ ap (λ b. unsure_pointer input.active.state || b)
                    (unsure-assess_managed input.managed new_assessment))))

unsure-assess_upgrade :
    (input : UpgradePlanInput) → (assess_upgrade input).is_unknown ≡ unsure input
unfolding assess_upgrade
unsure-assess_upgrade input =
    unsure-assess_postchecks input.postcheck_policy _ _
    ∙ ap (λ b. unsure_state input.postcheck_policy.state || b)
        (unsure-assess_compatibility input.compatibility _ _ true _
          ∙ ap (λ b. unsure_record input.compatibility true || b)
              (unsure-assess_point input.protection_point _ _ _
                ∙ ap (λ b. unsure_state input.protection_point.state || b)
                    (unsure-assess_inventory input.inventory _
                      ∙ ap (λ b. unsure_state input.inventory.state || b)
                          (unsure-assess_versions input))))

availability-conclude_by :
    (rs : List ReasonCode)
    → (a : Assessment) → (plan : UpgradePlan)
    → (conclude (record a { reasons = rs }) plan).availability ≡ (
        if no_reason rs
        then UpgradeAvailability.available
        else if a.is_unknown
        then UpgradeAvailability.unknown
        else UpgradeAvailability.blocked)
unfolding conclude
availability-conclude_by [] a plan = refl
availability-conclude_by (r ∷ rs) a plan = refl

availability-conclude :
    (a : Assessment)
    → (plan : UpgradePlan)
    → (conclude a plan).availability ≡ (
        if clean a
        then UpgradeAvailability.available
        else if a.is_unknown
        then UpgradeAvailability.unknown
        else UpgradeAvailability.blocked)
availability-conclude a plan = availability-conclude_by a.reasons a plan

abbrev choose : Bool → Bool → Bool → UpgradeAvailability
choose active complete unknown =
    if active
    then UpgradeAvailability.up_to_date
    else if complete
    then UpgradeAvailability.available
    else if unknown
    then UpgradeAvailability.unknown
    else UpgradeAvailability.blocked

availability_by :
    (input : UpgradePlanInput)
    → (active : Bool)
    → (if active
        then record (base_plan input) { reasons = ReasonCode.target_already_active ∷ [] }
        else conclude (assess_upgrade input) (base_plan input)).availability
      ≡ choose active (clean (assess_upgrade input)) (assess_upgrade input).is_unknown
unfolding base_plan
availability_by input true = refl
availability_by input false = availability-conclude (assess_upgrade input) (base_plan input)

names-pointer :
    (a : ActivePointerObservation)
    → (g : SealedGenerationObservation) → names a g ≡ true
    → is_valid_pointer a.state ≡ true
unfolding names
names-pointer a g named = ground arith

regroup_active :
    (managed pointed is_exact named target equal : Bool)
    → (named ≡ true → pointed ≡ true)
    → (managed && is_exact && named && target && equal)
      ≡ ((managed && pointed && is_exact && named && target) && equal)
regroup_active managed pointed is_exact named target equal implies = ground arith

already_active-versions :
    (input : UpgradePlanInput)
    → already_active input
      ≡ (versions_known input && identity_eq input.current.identity input.target.compiled)
unfolding already_active
already_active-versions input =
    regroup_active (is_managed input.managed) (is_valid_pointer input.active.state)
      (exact input.current) (names input.active input.current) (target_exact input.target)
      (identity_eq input.current.identity input.target.compiled)
      (names-pointer input.active input.current)

-- A plan is up to date where both versions are known and the target is the active generation. It is
-- available where both are known, differ, and the rest of the evidence is complete, unknown where
-- that fails and some evidence is unknown, and blocked in all other cases.
pub build_upgrade_plan_lem :
    (input : UpgradePlanInput)
    → (build_upgrade_plan input).availability ≡ (
        if versions_known input && identity_eq input.current.identity input.target.compiled
        then UpgradeAvailability.up_to_date
        else if versions_known input && evidence_complete input
        then UpgradeAvailability.available
        else if unsure input
        then UpgradeAvailability.unknown
        else UpgradeAvailability.blocked)
unfolding build_upgrade_plan
build_upgrade_plan_lem input =
    availability_by input (already_active input)
    ∙ ap (λ b. choose (already_active input) b (assess_upgrade input).is_unknown)
        (clean-assess_upgrade input)
    ∙ ap (choose (already_active input) (versions_known input && evidence_complete input))
        (unsure-assess_upgrade input)
    ∙ ap (λ b. choose b (versions_known input && evidence_complete input) (unsure input))
        (already_active-versions input)
