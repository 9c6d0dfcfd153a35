-- ===== src/Upgrade/Assess.antt =====
-- plan.go and rollback.go: the assessment of each piece of evidence, which both plans share.
pub mod Clean
pub mod Proven
pub mod Unsure
use yorva.Prelude.{
  Bool, true, false, not, ◌&&◌, ◌||◌, List, [], ◌∷◌, Bytes, is_positive, is_ok, if◌then◌else◌,
}
use yorva.Upgrade.Patterns.{closed_id_pattern}
use yorva.Upgrade.Identity.{SnapshotIdentity, validate_identity, identity_eq}
use yorva.Upgrade.Policy.{
  EvidenceState, ManagedState, ActivePointerState, ActivePointerObservation,
  SealedGenerationObservation, exact, names, TargetObservation, CompatibilitySafety, valid_safety,
  valid_migration, CompatibilityRecord, Postcheck, PostcheckQualification, postchecks_qualified,
  is_valid_pointer, is_verified, ProtectionPointObservation, InventoryObservation,
}
use yorva.Upgrade.Reasons.{ReasonCode, Assessment, add, add_unknown}

-- `if !test { reasons.add(reason) }`
unfoldable pub require : Bool → ReasonCode → Assessment → Assessment
unfolding add
require test reason a = if test then a else add reason a

-- The switch on input.Managed.
unfoldable pub assess_managed : ManagedState → Assessment → Assessment
unfolding add add_unknown
assess_managed ManagedState.managed a = a
assess_managed ManagedState.unmanaged a = add ReasonCode.unmanaged a
assess_managed _ a = add_unknown ReasonCode.managed_unknown a

-- The switch on input.Active.State.
unfoldable pub assess_pointer : ActivePointerState → Assessment → Assessment
unfolding add add_unknown
assess_pointer ActivePointerState.valid a = a
assess_pointer ActivePointerState.unknown a = add_unknown ReasonCode.active_pointer_unknown a
assess_pointer _ a = add ReasonCode.active_pointer_not_valid a

-- The switch on the state of some evidence: what to do with verified evidence, the reason for
-- unknown evidence, and the one for any other.
unfoldable pub assess_state :
    EvidenceState → (Assessment → Assessment) → ReasonCode → ReasonCode → Assessment → Assessment
unfolding add add_unknown
assess_state EvidenceState.verified check unsure bad a = check a
assess_state EvidenceState.unknown check unsure bad a = add_unknown unsure a
assess_state _ check unsure bad a = add bad a

-- The tests on the current generation in BuildUpgradePlan.
unfoldable pub assess_current : SealedGenerationObservation → Assessment → Assessment
unfolding require
assess_current g a =
    require (exact g) ReasonCode.current_seal_invalid
      (require (is_ok (validate_identity g.identity)) ReasonCode.current_identity_invalid a)

-- The active pointer has to name the current generation, where both are known.
unfoldable pub assess_names :
    ActivePointerObservation → SealedGenerationObservation → Assessment → Assessment
unfolding require
assess_names pointer current a =
    require
      (not (
        is_valid_pointer pointer.state && is_verified current.state && not (names pointer current)))
      ReasonCode.active_generation_mismatch a

-- The tests on the packaged target.
unfoldable pub assess_target : TargetObservation → Assessment → Assessment
unfolding add
assess_target t a =
    if not (is_ok (validate_identity t.compiled)) || not (is_ok (validate_identity t.observed))
    then add ReasonCode.target_identity_invalid a
    else if not (identity_eq t.compiled t.observed)
    then add ReasonCode.target_identity_mismatch a
    else a

-- targetExact
unfoldable pub target_exact : TargetObservation → Bool
target_exact t =
    is_verified t.state
    && is_ok (validate_identity t.compiled)
    && is_ok (validate_identity t.observed)
    && identity_eq t.compiled t.observed

unfoldable pub assess_inventory : InventoryObservation → Assessment → Assessment
unfolding assess_state
assess_inventory i a =
    assess_state i.state (λ b. b) ReasonCode.inventory_unknown ReasonCode.inventory_incomplete a

-- The switches on a protection point, by their two reasons.
unfoldable pub assess_point :
    ProtectionPointObservation → ReasonCode → ReasonCode → Assessment → Assessment
unfolding assess_state require
assess_point p unsure bad a =
    assess_state p.state (require (closed_id_pattern p.id) bad) unsure bad a

-- The switch on input.PostcheckPolicy.State.
unfoldable pub assess_postchecks : PostcheckQualification → List Postcheck → Assessment → Assessment
unfolding assess_state require
assess_postchecks policy required a =
    assess_state policy.state
      (require (postchecks_qualified policy required) ReasonCode.postchecks_unqualified)
      ReasonCode.postchecks_unknown ReasonCode.postchecks_unqualified a

-- The switches on the verdicts of a compatibility record.
unfoldable pub assess_safety :
    CompatibilitySafety → ReasonCode → ReasonCode → Assessment → Assessment
unfolding add add_unknown
assess_safety CompatibilitySafety.proven unsure bad a = a
assess_safety CompatibilitySafety.unknown unsure bad a = add_unknown unsure a
assess_safety CompatibilitySafety.unsafe unsure bad a = add bad a
assess_safety (CompatibilitySafety.other s) unsure bad a = add ReasonCode.compatibility_invalid a

-- The tests on a verified record that make it invalid where one fails.
unfoldable pub well_formed_record : CompatibilityRecord → Bool
well_formed_record r =
    closed_id_pattern r.id
    && closed_id_pattern r.windows_evidence_id
    && is_ok (validate_identity r.from)
    && is_ok (validate_identity r.to)
    && is_positive r.from_config_schema
    && is_positive r.to_config_schema
    && r.user_data_inventory_complete
    && valid_migration r.migration
    && valid_safety r.upgrade
    && valid_safety r.rollback

-- The part behind the first switch.
unfoldable pub assess_verdicts : CompatibilityRecord → Bool → Assessment → Assessment
unfolding assess_safety
assess_verdicts r upgrade a =
    assess_safety r.rollback ReasonCode.rollback_compatibility_unknown
      ReasonCode.rollback_compatibility_unsafe
      (if upgrade
        then assess_safety r.upgrade ReasonCode.upgrade_compatibility_unknown
            ReasonCode.upgrade_compatibility_unsafe a
        else a)

unfoldable pub assess_record :
    CompatibilityRecord → SnapshotIdentity → SnapshotIdentity → Bool → Assessment → Assessment
unfolding assess_verdicts require add
assess_record r from to upgrade a =
    if not (well_formed_record r)
    then add ReasonCode.compatibility_invalid a
    else assess_verdicts r upgrade (
        require (identity_eq r.from from && identity_eq r.to to)
          ReasonCode.compatibility_pair_mismatch a)

unfoldable pub assess_by_state : EvidenceState → (Assessment → Assessment) → Assessment → Assessment
unfolding add add_unknown
assess_by_state EvidenceState.verified check a = check a
assess_by_state EvidenceState.missing check a = add ReasonCode.compatibility_missing a
assess_by_state EvidenceState.unknown check a = add_unknown ReasonCode.compatibility_unknown a
assess_by_state _ check a = add ReasonCode.compatibility_invalid a

-- assessCompatibility, with what it adds to the reasons and to `unknown`. The first value that it
-- returns matters only where no reason is left, and there it is true.
unfoldable pub assess_compatibility :
    CompatibilityRecord → SnapshotIdentity → SnapshotIdentity → Bool → Assessment → Assessment
unfolding assess_by_state assess_record
assess_compatibility r from to upgrade a =
    assess_by_state r.state (assess_record r from to upgrade) a
