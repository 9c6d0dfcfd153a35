-- ===== src/Upgrade/Plan/Complete.antt =====
-- plan.go: what an upgrade needs to be available.
use yorva.Prelude.{Bool, true, not, ◌&&◌, is_ok, ◌≡◌, arith}
use yorva.Upgrade.Identity.{validate_identity, identity_eq}
use yorva.Upgrade.Patterns.{closed_id_pattern}
use yorva.Upgrade.Policy.{
  is_verified, is_managed, is_valid_pointer, exact, names, postchecks_qualified,
  required_postchecks,
}
use yorva.Upgrade.Reasons.{ReasonCode, Assessment, new_assessment}
use yorva.Upgrade.Assess.{target_exact, assess_target, assess_current, assess_state}
use yorva.Upgrade.Assess.Clean.{
  clean, clean-assess_state, clean-assess_current, clean-assess_target, clean-assess_names,
  clean-assess_pointer, clean-assess_managed, clean-assess_postchecks, clean-assess_point,
  clean-assess_inventory,
}
use yorva.Upgrade.Assess.Proven.{proves, clean-assess_compatibility}
use yorva.Upgrade.Plan.{UpgradePlanInput, assess_versions, assess_upgrade}

-- The two versions are known: a managed Runtime, whose active pointer names the sealed generation,
-- and a packaged target that is the one compiled in.
abbrev pub versions_known : UpgradePlanInput → Bool
versions_known input =
    is_managed input.managed
    && is_valid_pointer input.active.state
    && exact input.current
    && names input.active input.current
    && target_exact input.target

-- The rest of the evidence is complete.
abbrev pub evidence_complete : UpgradePlanInput → Bool
evidence_complete input =
    is_verified input.inventory.state
    && is_verified input.protection_point.state
    && closed_id_pattern input.protection_point.id
    && proves input.compatibility input.current.identity input.target.compiled true
    && is_verified input.postcheck_policy.state
    && postchecks_qualified input.postcheck_policy (required_postchecks input.inventory.features)

clean-assess_current_state :
    (input : UpgradePlanInput)
    → (a : Assessment)
    → clean (
        assess_state input.current.state
          (assess_current input.current)
          ReasonCode.current_seal_unknown
          ReasonCode.current_seal_invalid
          a)
      ≡ (is_verified input.current.state && (exact input.current && clean a))
clean-assess_current_state input a =
    clean-assess_state input.current.state (assess_current input.current) _ _ a _
      (clean-assess_current input.current a)

regroup_target :
    (v c o e rest : Bool) → (v && ((c && o && e) && rest)) ≡ ((v && c && o && e) && rest)
regroup_target v c o e rest = ground arith

regroup_versions :
    (managed pointed sealed is_exact named target : Bool)
    → (is_exact ≡ true → sealed ≡ true)
    → (target
        && (not (pointed && sealed && not named)
            && (sealed && (is_exact && (pointed && (managed && true))))))
      ≡ (managed && pointed && is_exact && named && target)
regroup_versions managed pointed sealed is_exact named target implies = ground arith

regroup_upgrade :
    (versions inventory point point_id pair checked qualified : Bool)
    → (checked && (qualified && (pair && (point && (point_id && (inventory && versions))))))
      ≡ (versions && (inventory && point && point_id && pair && checked && qualified))
regroup_upgrade versions inventory point point_id pair checked qualified = ground arith

clean-assess_target_state :
    (input : UpgradePlanInput)
    → (a : Assessment)
    → clean (
        assess_state input.target.state
          (assess_target input.target)
          ReasonCode.target_unknown
          ReasonCode.target_identity_invalid
          a)
      ≡ (target_exact input.target && clean a)
unfolding target_exact
clean-assess_target_state input a =
    rw
      (clean-assess_state input.target.state (assess_target input.target) _ _ a _
        (clean-assess_target input.target a))
      (regroup_target _ (is_ok (validate_identity input.target.compiled))
        (is_ok (validate_identity input.target.observed))
        (identity_eq input.target.compiled input.target.observed) _)

exact-verified :
    (input : UpgradePlanInput) → exact input.current ≡ true → is_verified input.current.state ≡ true
unfolding exact
exact-verified input is_exact = ground arith

clean-assess_versions :
    (input : UpgradePlanInput) → clean (assess_versions input) ≡ versions_known input
unfolding assess_versions
clean-assess_versions input = rw (clean-assess_target_state input _) (
    rw (clean-assess_names input.active input.current _) (
      rw (clean-assess_current_state input _) (
        rw (clean-assess_pointer input.active.state _) (
          rw (clean-assess_managed input.managed new_assessment) (
            regroup_versions (is_managed input.managed) (is_valid_pointer input.active.state)
              (is_verified input.current.state) (exact input.current)
              (names input.active input.current) (target_exact input.target)
              (exact-verified input))))))

pub clean-assess_upgrade :
    (input : UpgradePlanInput)
    → clean (assess_upgrade input) ≡ (versions_known input && evidence_complete input)
unfolding assess_upgrade
clean-assess_upgrade input = rw (clean-assess_postchecks input.postcheck_policy _ _) (
    rw (clean-assess_compatibility input.compatibility _ _ _ _) (
      rw (clean-assess_point input.protection_point _ _ _) (
        rw (clean-assess_inventory input.inventory _) (
          rw (clean-assess_versions input) (
            regroup_upgrade (versions_known input) (is_verified input.inventory.state)
              (is_verified input.protection_point.state)
              (closed_id_pattern input.protection_point.id)
              (proves input.compatibility input.current.identity input.target.compiled true)
              (is_verified input.postcheck_policy.state)
              (postchecks_qualified input.postcheck_policy
                (required_postchecks input.inventory.features)))))))
