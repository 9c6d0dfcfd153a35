-- ===== src/Upgrade/Assess/Proven.antt =====
-- plan.go: when assessCompatibility leaves no reason behind.
use yorva.Prelude.{Bool, true, false, not, ◌&&◌, ◌||◌, ◌≡◌, refl, ap, arith}
use yorva.Upgrade.Identity.{SnapshotIdentity, identity_eq}
use yorva.Upgrade.Policy.{EvidenceState, is_verified, CompatibilitySafety, CompatibilityRecord}
use yorva.Upgrade.Reasons.{ReasonCode, Assessment}
use yorva.Upgrade.Assess.{
  require, assess_safety, well_formed_record, assess_verdicts, assess_record, assess_by_state,
  assess_compatibility,
}
use yorva.Upgrade.Assess.Clean.{clean, clean-add, clean-add_unknown, clean-require}

abbrev pub is_safe : CompatibilitySafety → Bool
is_safe CompatibilitySafety.proven = true
is_safe _ = false

clean-assess_safety :
    (s : CompatibilitySafety)
    → (unsure bad : ReasonCode) → (a : Assessment)
    → clean (assess_safety s unsure bad a) ≡ (is_safe s && clean a)
unfolding assess_safety
clean-assess_safety CompatibilitySafety.proven unsure bad a = refl
clean-assess_safety CompatibilitySafety.unsafe unsure bad a = clean-add _ a
clean-assess_safety CompatibilitySafety.unknown unsure bad a = clean-add_unknown _ a
clean-assess_safety (CompatibilitySafety.other s) unsure bad a = clean-add _ a

-- What a record says of the pair of identities that it is asked about, for an upgrade and a rollback,
-- and for a rollback alone.
abbrev pub proves : CompatibilityRecord → SnapshotIdentity → SnapshotIdentity → Bool → Bool
proves r from to upgrade =
    is_verified r.state
    && (well_formed_record r
        && identity_eq r.from from
        && identity_eq r.to to
        && (not upgrade || is_safe r.upgrade)
        && is_safe r.rollback)

clean-assess_verdicts :
    (r : CompatibilityRecord)
    → (upgrade : Bool) → (a : Assessment)
    → clean (assess_verdicts r upgrade a)
      ≡ (is_safe r.rollback && ((not upgrade || is_safe r.upgrade) && clean a))
unfolding assess_verdicts
clean-assess_verdicts r true a =
    rw
      (clean-assess_safety r.rollback ReasonCode.rollback_compatibility_unknown
        ReasonCode.rollback_compatibility_unsafe _)
      (ap (λ b. is_safe r.rollback && b) (clean-assess_safety r.upgrade _ _ a))
clean-assess_verdicts r false a = clean-assess_safety r.rollback _ _ a

regroup :
    (rollback upgrade from to rest : Bool)
    → (rollback && (upgrade && ((from && to) && rest)))
      ≡ ((from && to && upgrade && rollback) && rest)
regroup rollback upgrade from to rest = ground arith

clean-assess_record :
    (r : CompatibilityRecord)
    → (from to : SnapshotIdentity) → (upgrade : Bool) → (a : Assessment) → (w : Bool)
    → well_formed_record r ≡ w
    → clean (assess_record r from to upgrade a) ≡ (
        (w
          && identity_eq r.from from
          && identity_eq r.to to
          && (not upgrade || is_safe r.upgrade)
          && is_safe r.rollback)
        && clean a)
unfolding assess_record
clean-assess_record r from to upgrade a false ill = rw ill (clean-add _ a)
clean-assess_record r from to upgrade a true well = rw well (
    rw
      (clean-assess_verdicts r upgrade (
        require (identity_eq r.from from && identity_eq r.to to)
          ReasonCode.compatibility_pair_mismatch a))
      (rw
        (clean-require (identity_eq r.from from && identity_eq r.to to)
          ReasonCode.compatibility_pair_mismatch a)
        (regroup (is_safe r.rollback) (not upgrade || is_safe r.upgrade) (identity_eq r.from from)
          (identity_eq r.to to) (clean a))))

clean-assess_by_state :
    (s : EvidenceState)
    → (check : Assessment → Assessment) → (a : Assessment) → (test : Bool)
    → clean (check a) ≡ (test && clean a)
    → clean (assess_by_state s check a) ≡ (is_verified s && test && clean a)
unfolding assess_by_state
clean-assess_by_state EvidenceState.verified check a test step = step
clean-assess_by_state EvidenceState.missing check a test step = clean-add _ a
clean-assess_by_state EvidenceState.invalid check a test step = clean-add _ a
clean-assess_by_state EvidenceState.unknown check a test step = clean-add_unknown _ a
clean-assess_by_state (EvidenceState.other s) check a test step = clean-add _ a

pub clean-assess_compatibility :
    (r : CompatibilityRecord)
    → (from to : SnapshotIdentity) → (upgrade : Bool) → (a : Assessment)
    → clean (assess_compatibility r from to upgrade a) ≡ (proves r from to upgrade && clean a)
unfolding assess_compatibility
clean-assess_compatibility r from to upgrade a =
    clean-assess_by_state r.state (assess_record r from to upgrade) a _
      (clean-assess_record r from to upgrade a _ refl)
