-- ===== src/Upgrade/Assess/Unsure.antt =====
-- plan.go and rollback.go: when a step of the assessment finds that some evidence is unknown.
use yorva.Prelude.{Bool, true, false, not, ◌&&◌, ◌||◌, List, if◌then◌else◌, ◌≡◌, refl, ap, arith}
use yorva.Upgrade.Identity.{SnapshotIdentity, identity_eq}
use yorva.Upgrade.Policy.{
  EvidenceState, is_verified, ManagedState, ActivePointerState, ActivePointerObservation, exact,
  SealedGenerationObservation, TargetObservation, InventoryObservation, ProtectionPointObservation,
  CompatibilitySafety, CompatibilityRecord, PostcheckQualification, Postcheck,
}
use yorva.Upgrade.Reasons.{ReasonCode, Assessment, add, add_unknown}
use yorva.Upgrade.Assess.{
  require, assess_managed, assess_pointer, assess_state, assess_current, assess_names,
  assess_target, assess_inventory, assess_point, assess_safety, well_formed_record, assess_verdicts,
  assess_record, assess_by_state, assess_compatibility, assess_postchecks,
}

-- A state that the assessment of evidence takes as unknown; any text but the four closed values is
-- refused as invalid instead.
abbrev pub unsure_state : EvidenceState → Bool
unsure_state EvidenceState.unknown = true
unsure_state _ = false

abbrev pub unsure_managed : ManagedState → Bool
unsure_managed ManagedState.managed = false
unsure_managed ManagedState.unmanaged = false
unsure_managed _ = true

abbrev pub unsure_pointer : ActivePointerState → Bool
unsure_pointer ActivePointerState.unknown = true
unsure_pointer _ = false

abbrev pub unsure_safety : CompatibilitySafety → Bool
unsure_safety CompatibilitySafety.unknown = true
unsure_safety _ = false

abbrev pub unsure_record : CompatibilityRecord → Bool → Bool
unsure_record r upgrade =
    unsure_state r.state
    || (is_verified r.state
        && (well_formed_record r
            && (unsure_safety r.rollback || (upgrade && unsure_safety r.upgrade))))

unsure-require :
    (t : Bool) → (r : ReasonCode) → (a : Assessment) → (require t r a).is_unknown ≡ a.is_unknown
unfolding require add
unsure-require true r a = refl
unsure-require false r a = refl

pub unsure-assess_managed :
    (m : ManagedState)
    → (a : Assessment) → (assess_managed m a).is_unknown ≡ (unsure_managed m || a.is_unknown)
unfolding assess_managed add add_unknown
unsure-assess_managed ManagedState.managed a = refl
unsure-assess_managed ManagedState.unmanaged a = refl
unsure-assess_managed ManagedState.unknown a = refl
unsure-assess_managed (ManagedState.other s) a = refl

pub unsure-assess_pointer :
    (s : ActivePointerState)
    → (a : Assessment) → (assess_pointer s a).is_unknown ≡ (unsure_pointer s || a.is_unknown)
unfolding assess_pointer add add_unknown
unsure-assess_pointer ActivePointerState.valid a = refl
unsure-assess_pointer ActivePointerState.missing a = refl
unsure-assess_pointer ActivePointerState.invalid a = refl
unsure-assess_pointer ActivePointerState.unknown a = refl
unsure-assess_pointer (ActivePointerState.other s) a = refl

pub unsure-assess_state :
    (s : EvidenceState)
    → (check : Assessment → Assessment) → (unsure bad : ReasonCode) → (a : Assessment)
    → (check a).is_unknown ≡ a.is_unknown
    → (assess_state s check unsure bad a).is_unknown ≡ (unsure_state s || a.is_unknown)
unfolding assess_state add add_unknown
unsure-assess_state EvidenceState.verified check unsure bad a step = step
unsure-assess_state EvidenceState.missing check unsure bad a step = refl
unsure-assess_state EvidenceState.invalid check unsure bad a step = refl
unsure-assess_state EvidenceState.unknown check unsure bad a step = refl
unsure-assess_state (EvidenceState.other s) check unsure bad a step = refl

pub unsure-assess_current :
    (g : SealedGenerationObservation)
    → (a : Assessment) → (assess_current g a).is_unknown ≡ a.is_unknown
unfolding assess_current
unsure-assess_current g a =
    rw (unsure-require (exact g) ReasonCode.current_seal_invalid _) (unsure-require _ _ a)

pub unsure-assess_names :
    (p : ActivePointerObservation)
    → (g : SealedGenerationObservation) → (a : Assessment)
    → (assess_names p g a).is_unknown ≡ a.is_unknown
unfolding assess_names
unsure-assess_names p g a = unsure-require _ _ a

unsure_branches :
    (c o e : Bool)
    → (a : Assessment) → (r1 r2 : ReasonCode)
    → (if not c || not o then add r1 a else if not e then add r2 a else a).is_unknown ≡ a.is_unknown
unfolding add
unsure_branches false o e a r1 r2 = refl
unsure_branches true false e a r1 r2 = refl
unsure_branches true true false a r1 r2 = refl
unsure_branches true true true a r1 r2 = refl

pub unsure-assess_target :
    (t : TargetObservation) → (a : Assessment) → (assess_target t a).is_unknown ≡ a.is_unknown
unfolding assess_target
unsure-assess_target t a =
    unsure_branches _ _ _ a ReasonCode.target_identity_invalid ReasonCode.target_identity_mismatch

pub unsure-assess_inventory :
    (i : InventoryObservation)
    → (a : Assessment) → (assess_inventory i a).is_unknown ≡ (unsure_state i.state || a.is_unknown)
unfolding assess_inventory
unsure-assess_inventory i a = unsure-assess_state i.state (λ b. b) _ _ a refl

pub unsure-assess_point :
    (p : ProtectionPointObservation)
    → (unsure bad : ReasonCode) → (a : Assessment)
    → (assess_point p unsure bad a).is_unknown ≡ (unsure_state p.state || a.is_unknown)
unfolding assess_point
unsure-assess_point p unsure bad a = unsure-assess_state p.state _ _ _ a (unsure-require _ bad a)

pub unsure-assess_postchecks :
    (policy : PostcheckQualification)
    → (required : List Postcheck) → (a : Assessment)
    → (assess_postchecks policy required a).is_unknown ≡ (unsure_state policy.state || a.is_unknown)
unfolding assess_postchecks
unsure-assess_postchecks policy required a =
    unsure-assess_state policy.state _ _ _ a (unsure-require _ _ a)

unsure-assess_safety :
    (s : CompatibilitySafety)
    → (unsure bad : ReasonCode) → (a : Assessment)
    → (assess_safety s unsure bad a).is_unknown ≡ (unsure_safety s || a.is_unknown)
unfolding assess_safety add add_unknown
unsure-assess_safety CompatibilitySafety.proven unsure bad a = refl
unsure-assess_safety CompatibilitySafety.unsafe unsure bad a = refl
unsure-assess_safety CompatibilitySafety.unknown unsure bad a = refl
unsure-assess_safety (CompatibilitySafety.other s) unsure bad a = refl

or_assoc : (a b c : Bool) → (a || (b || c)) ≡ (a || b || c)
or_assoc a b c = ground arith

unsure-assess_verdicts :
    (r : CompatibilityRecord)
    → (upgrade : Bool) → (a : Assessment)
    → (assess_verdicts r upgrade a).is_unknown
      ≡ (unsure_safety r.rollback || (upgrade && unsure_safety r.upgrade) || a.is_unknown)
unfolding assess_verdicts
unsure-assess_verdicts r true a =
    rw
      (unsure-assess_safety r.rollback ReasonCode.rollback_compatibility_unknown
        ReasonCode.rollback_compatibility_unsafe _)
      (rw
        (unsure-assess_safety r.upgrade ReasonCode.upgrade_compatibility_unknown
          ReasonCode.upgrade_compatibility_unsafe a)
        (or_assoc (unsure_safety r.rollback) (unsure_safety r.upgrade) a.is_unknown))
unsure-assess_verdicts r false a =
    rw
      (unsure-assess_safety r.rollback ReasonCode.rollback_compatibility_unknown
        ReasonCode.rollback_compatibility_unsafe a)
      (or_assoc (unsure_safety r.rollback) false a.is_unknown)

unsure-assess_record :
    (r : CompatibilityRecord)
    → (from to : SnapshotIdentity) → (upgrade : Bool) → (a : Assessment) → (w : Bool)
    → well_formed_record r ≡ w
    → (assess_record r from to upgrade a).is_unknown
      ≡ ((w && (unsure_safety r.rollback || (upgrade && unsure_safety r.upgrade))) || a.is_unknown)
unfolding assess_record add
unsure-assess_record r from to upgrade a false ill = rw ill refl
unsure-assess_record r from to upgrade a true well = rw well (
    rw
      (unsure-assess_verdicts r upgrade (
        require (identity_eq r.from from && identity_eq r.to to)
          ReasonCode.compatibility_pair_mismatch a))
      (ap (λ b. unsure_safety r.rollback || (upgrade && unsure_safety r.upgrade) || b)
        (unsure-require _ _ a)))

unsure-assess_by_state :
    (s : EvidenceState)
    → (check : Assessment → Assessment) → (a : Assessment) → (unsure : Bool)
    → (check a).is_unknown ≡ (unsure || a.is_unknown)
    → (assess_by_state s check a).is_unknown
      ≡ (unsure_state s || (is_verified s && unsure) || a.is_unknown)
unfolding assess_by_state add add_unknown
unsure-assess_by_state EvidenceState.verified check a unsure step = step
unsure-assess_by_state EvidenceState.missing check a unsure step = refl
unsure-assess_by_state EvidenceState.invalid check a unsure step = refl
unsure-assess_by_state EvidenceState.unknown check a unsure step = refl
unsure-assess_by_state (EvidenceState.other s) check a unsure step = refl

pub unsure-assess_compatibility :
    (r : CompatibilityRecord)
    → (from to : SnapshotIdentity) → (upgrade : Bool) → (a : Assessment)
    → (assess_compatibility r from to upgrade a).is_unknown
      ≡ (unsure_record r upgrade || a.is_unknown)
unfolding assess_compatibility
unsure-assess_compatibility r from to upgrade a =
    unsure-assess_by_state r.state (assess_record r from to upgrade) a _
      (unsure-assess_record r from to upgrade a _ refl)
