-- ===== src/Upgrade/Assess/Clean.antt =====
-- plan.go and rollback.go: when a step of the assessment leaves no reason behind.
use yorva.Prelude.{
  Bool, true, false, not, ◌&&◌, ◌||◌, List, [], ◌∷◌, is_ok, if◌then◌else◌, ◌≡◌, refl, ap, arith,
}
use yorva.Upgrade.Identity.{validate_identity, identity_eq}
use yorva.Upgrade.Patterns.{closed_id_pattern}
use yorva.Upgrade.Policy.{
  EvidenceState, is_verified, ManagedState, is_managed, ActivePointerState, is_valid_pointer,
  ActivePointerObservation, SealedGenerationObservation, exact, names, TargetObservation,
  InventoryObservation, ProtectionPointObservation, PostcheckQualification, Postcheck,
  postchecks_qualified,
}
use yorva.Upgrade.Reasons.{ReasonCode, has_reason, add_reason, Assessment, add, add_unknown}
use yorva.Upgrade.Assess.{
  require, assess_managed, assess_pointer, assess_state, assess_current, assess_names,
  assess_target, assess_inventory, assess_point, assess_postchecks,
}

abbrev pub no_reason : List ReasonCode → Bool
no_reason [] = true
no_reason (r ∷ rs) = false

abbrev pub clean : Assessment → Bool
clean a = no_reason a.reasons

no_reason-add_reason :
    (r : ReasonCode) → (rs : List ReasonCode) → no_reason (add_reason r rs) ≡ false
unfolding add_reason has_reason
no_reason-add_reason r [] = refl
no_reason-add_reason r (x ∷ rs) = ground arith

pub clean-add : (r : ReasonCode) → (a : Assessment) → clean (add r a) ≡ false
unfolding add
clean-add r a = no_reason-add_reason r a.reasons

pub clean-add_unknown : (r : ReasonCode) → (a : Assessment) → clean (add_unknown r a) ≡ false
unfolding add_unknown
clean-add_unknown r a = no_reason-add_reason r a.reasons

pub clean-require :
    (test : Bool)
    → (r : ReasonCode) → (a : Assessment) → clean (require test r a) ≡ (test && clean a)
unfolding require
clean-require true r a = refl
clean-require false r a = clean-add r a

pub clean-assess_managed :
    (m : ManagedState) → (a : Assessment) → clean (assess_managed m a) ≡ (is_managed m && clean a)
unfolding assess_managed
clean-assess_managed ManagedState.managed a = refl
clean-assess_managed ManagedState.unmanaged a = clean-add _ a
clean-assess_managed ManagedState.unknown a = clean-add_unknown _ a
clean-assess_managed (ManagedState.other s) a = clean-add_unknown _ a

pub clean-assess_pointer :
    (s : ActivePointerState)
    → (a : Assessment) → clean (assess_pointer s a) ≡ (is_valid_pointer s && clean a)
unfolding assess_pointer
clean-assess_pointer ActivePointerState.valid a = refl
clean-assess_pointer ActivePointerState.missing a = clean-add _ a
clean-assess_pointer ActivePointerState.invalid a = clean-add _ a
clean-assess_pointer ActivePointerState.unknown a = clean-add_unknown _ a
clean-assess_pointer (ActivePointerState.other s) a = clean-add _ a

-- A check of verified evidence that amounts to one test.
pub clean-assess_state :
    (s : EvidenceState)
    → (check : Assessment → Assessment) → (unsure bad : ReasonCode) → (a : Assessment)
    → (test : Bool) → clean (check a) ≡ (test && clean a)
    → clean (assess_state s check unsure bad a) ≡ (is_verified s && (test && clean a))
unfolding assess_state
clean-assess_state EvidenceState.verified check unsure bad a test step = step
clean-assess_state EvidenceState.missing check unsure bad a test step = clean-add _ a
clean-assess_state EvidenceState.invalid check unsure bad a test step = clean-add _ a
clean-assess_state EvidenceState.unknown check unsure bad a test step = clean-add_unknown _ a
clean-assess_state (EvidenceState.other s) check unsure bad a test step = clean-add _ a

clean-assess_current_by :
    (g : SealedGenerationObservation)
    → (a : Assessment)
    → clean (assess_current g a) ≡ (exact g && (is_ok (validate_identity g.identity) && clean a))
unfolding assess_current
clean-assess_current_by g a =
    rw (clean-require (exact g) ReasonCode.current_seal_invalid _)
      (ap (λ b. exact g && b) (clean-require _ _ a))

and_absorb : (a b c : Bool) → (a ≡ true → b ≡ true) → (a && (b && c)) ≡ (a && c)
and_absorb a b c implies = ground arith

pub exact-identity :
    (g : SealedGenerationObservation) → exact g ≡ true → is_ok (validate_identity g.identity) ≡ true
unfolding exact
exact-identity g is_exact = ground arith

-- The test of the identity is a part of `exact`.
pub clean-assess_current :
    (g : SealedGenerationObservation)
    → (a : Assessment) → clean (assess_current g a) ≡ (exact g && clean a)
clean-assess_current g a = rw (clean-assess_current_by g a) (and_absorb _ _ _ (exact-identity g))

pub clean-assess_names :
    (p : ActivePointerObservation)
    → (g : SealedGenerationObservation) → (a : Assessment)
    → clean (assess_names p g a)
      ≡ (not (is_valid_pointer p.state && is_verified g.state && not (names p g)) && clean a)
unfolding assess_names
clean-assess_names p g a = clean-require _ _ a

clean_branches :
    (c o e : Bool)
    → (a : Assessment) → (r1 r2 : ReasonCode)
    → clean (if not c || not o then add r1 a else if not e then add r2 a else a)
      ≡ ((c && o && e) && clean a)
clean_branches false o e a r1 r2 = clean-add r1 a
clean_branches true false e a r1 r2 = clean-add r1 a
clean_branches true true false a r1 r2 = clean-add r2 a
clean_branches true true true a r1 r2 = refl

pub clean-assess_target :
    (t : TargetObservation)
    → (a : Assessment)
    → clean (assess_target t a) ≡ (
        (is_ok (validate_identity t.compiled)
          && is_ok (validate_identity t.observed)
          && identity_eq t.compiled t.observed)
        && clean a)
unfolding assess_target
clean-assess_target t a =
    clean_branches _ _ _ a ReasonCode.target_identity_invalid ReasonCode.target_identity_mismatch

pub clean-assess_inventory :
    (i : InventoryObservation)
    → (a : Assessment) → clean (assess_inventory i a) ≡ (is_verified i.state && clean a)
unfolding assess_inventory
clean-assess_inventory i a = clean-assess_state i.state _ _ _ a true refl

pub clean-assess_point :
    (p : ProtectionPointObservation)
    → (unsure bad : ReasonCode) → (a : Assessment)
    → clean (assess_point p unsure bad a)
      ≡ (is_verified p.state && (closed_id_pattern p.id && clean a))
unfolding assess_point
clean-assess_point p unsure bad a =
    clean-assess_state p.state _ _ _ a (closed_id_pattern p.id) (clean-require _ bad a)

pub clean-assess_postchecks :
    (policy : PostcheckQualification)
    → (required : List Postcheck) → (a : Assessment)
    → clean (assess_postchecks policy required a)
      ≡ (is_verified policy.state && (postchecks_qualified policy required && clean a))
unfolding assess_postchecks
clean-assess_postchecks policy required a =
    clean-assess_state policy.state _ _ _ a (postchecks_qualified policy required)
      (clean-require _ _ a)
