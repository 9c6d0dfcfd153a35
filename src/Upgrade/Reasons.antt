-- ===== src/Upgrade/Reasons.antt =====
-- plan.go: the reasons of a decision, each at most once and in the order in which they were found.
use yorva.Prelude.{ℕ, Bool, true, false, ◌||◌, List, [], ◌∷◌, ◌++◌, if◌then◌else◌, ◌==◌}

pub data ReasonCode : Type 0 where
  managed_unknown unmanaged : ReasonCode
  active_pointer_unknown active_pointer_not_valid : ReasonCode
  current_seal_unknown current_seal_invalid current_identity_invalid : ReasonCode
  active_generation_mismatch : ReasonCode
  target_unknown target_identity_invalid target_identity_mismatch target_already_active : ReasonCode
  inventory_unknown inventory_incomplete : ReasonCode
  protection_point_unknown protection_point_unavailable : ReasonCode
  compatibility_unknown compatibility_missing compatibility_invalid : ReasonCode
  compatibility_pair_mismatch : ReasonCode
  upgrade_compatibility_unknown upgrade_compatibility_unsafe : ReasonCode
  rollback_compatibility_unknown rollback_compatibility_unsafe : ReasonCode
  postchecks_unknown postchecks_unqualified : ReasonCode
  previous_generation_unknown previous_generation_missing : ReasonCode
  previous_generation_invalid previous_generation_same : ReasonCode
  protection_restore_unknown protection_restore_incomplete : ReasonCode

reason_index : ReasonCode → ℕ
reason_index ReasonCode.managed_unknown = 0
reason_index ReasonCode.unmanaged = 1
reason_index ReasonCode.active_pointer_unknown = 2
reason_index ReasonCode.active_pointer_not_valid = 3
reason_index ReasonCode.current_seal_unknown = 4
reason_index ReasonCode.current_seal_invalid = 5
reason_index ReasonCode.current_identity_invalid = 6
reason_index ReasonCode.active_generation_mismatch = 7
reason_index ReasonCode.target_unknown = 8
reason_index ReasonCode.target_identity_invalid = 9
reason_index ReasonCode.target_identity_mismatch = 10
reason_index ReasonCode.target_already_active = 11
reason_index ReasonCode.inventory_unknown = 12
reason_index ReasonCode.inventory_incomplete = 13
reason_index ReasonCode.protection_point_unknown = 14
reason_index ReasonCode.protection_point_unavailable = 15
reason_index ReasonCode.compatibility_unknown = 16
reason_index ReasonCode.compatibility_missing = 17
reason_index ReasonCode.compatibility_invalid = 18
reason_index ReasonCode.compatibility_pair_mismatch = 19
reason_index ReasonCode.upgrade_compatibility_unknown = 20
reason_index ReasonCode.upgrade_compatibility_unsafe = 21
reason_index ReasonCode.rollback_compatibility_unknown = 22
reason_index ReasonCode.rollback_compatibility_unsafe = 23
reason_index ReasonCode.postchecks_unknown = 24
reason_index ReasonCode.postchecks_unqualified = 25
reason_index ReasonCode.previous_generation_unknown = 26
reason_index ReasonCode.previous_generation_missing = 27
reason_index ReasonCode.previous_generation_invalid = 28
reason_index ReasonCode.previous_generation_same = 29
reason_index ReasonCode.protection_restore_unknown = 30
reason_index ReasonCode.protection_restore_incomplete = 31

-- `a == b` on reasons
unfoldable pub reason_eq : ReasonCode → ReasonCode → Bool
unfolding reason_index
reason_eq a b = reason_index a == reason_index b

unfoldable pub has_reason : ReasonCode → List ReasonCode → Bool
has_reason reason [] = false
has_reason reason (r ∷ rs) = reason_eq r reason || has_reason reason rs

-- reasonSet.add; the map `seen` holds what stands in the slice
unfoldable pub add_reason : ReasonCode → List ReasonCode → List ReasonCode
add_reason reason rs = if has_reason reason rs then rs else rs ++ reason ∷ []

-- What the assessment of the evidence has found so far: the reasons, and whether some evidence is
-- unknown.
pub record Assessment : Type 0 where
  pub reasons : List ReasonCode
  pub is_unknown : Bool

-- newReasons, and `unknown := false`
abbrev pub new_assessment : Assessment
new_assessment = record { reasons = []; is_unknown = false }

-- `reasons.add(reason)`
unfoldable pub add : ReasonCode → Assessment → Assessment
unfolding add_reason
add reason a = record a { reasons = add_reason reason a.reasons }

-- `reasons.add(reason); unknown = true`
unfoldable pub add_unknown : ReasonCode → Assessment → Assessment
unfolding add_reason
add_unknown reason a = record a { reasons = add_reason reason a.reasons; is_unknown = true }
