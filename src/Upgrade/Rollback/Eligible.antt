-- ===== src/Upgrade/Rollback/Eligible.antt =====
-- rollback.go: what a rollback needs to be eligible.
use yorva.Prelude.{
  Bytes, Bool, true, false, not, ◌&&◌, ◌||◌, List, [], ◌∷◌, is_empty, is_ok, same, if◌then◌else◌,
  ◌≡◌, refl, sym, ap, ◌∙◌, arith,
}
use yorva.Upgrade.Patterns.{closed_id_pattern, generation_id_pattern}
use yorva.Upgrade.Policy.{
  EvidenceState, is_verified, is_managed, is_valid_pointer, SealedGenerationObservation, exact,
  names, ProtectionPointObservation, CompatibilityRecord, Postcheck, postchecks_qualified,
  required_postchecks,
}
use yorva.Upgrade.Reasons.{ReasonCode, Assessment, new_assessment, add}
use yorva.Upgrade.Assess.Clean.{
  no_reason, clean, clean-add, clean-add_unknown, clean-require, clean-assess_managed,
  clean-assess_pointer, clean-assess_names, clean-assess_inventory, clean-assess_point,
  clean-assess_postchecks,
}
use yorva.Upgrade.Assess.Proven.{proves, clean-assess_compatibility}
use yorva.Upgrade.Rollback.{
  RollbackEligibility, RollbackPlanInput, assess_current_by, assess_previous_by,
  assess_rollback_generation, assess_distinct, assess_restore, assess_generations,
  assess_rollback_evidence, rollback_plan, assess_rollback,
}

-- The active generation is exact and the one that the pointer names; another exact generation came
-- before it.
abbrev pub generations_known : RollbackPlanInput → Bool
generations_known input =
    is_managed input.managed
    && is_valid_pointer input.active.state
    && exact input.current
    && names input.active input.current
    && exact input.previous
    && not (same input.current.generation_id input.previous.generation_id)

-- A verified record may ask for a protection point, which has to be verified then.
abbrev pub restorable : CompatibilityRecord → ProtectionPointObservation → Bool
restorable r p =
    not (is_verified r.state && r.protection_restore_required)
    || (is_verified p.state && closed_id_pattern p.id)

abbrev pub rollback_evidence_complete : RollbackPlanInput → Bool
rollback_evidence_complete input =
    is_verified input.inventory.state
    && proves input.compatibility input.previous.identity input.current.identity false
    && restorable input.compatibility input.protection_restore
    && is_verified input.postcheck_policy.state
    && postchecks_qualified input.postcheck_policy (required_postchecks input.inventory.features)

current_branches :
    (e : Bool)
    → (a b : Assessment)
    → clean (if e then a else add ReasonCode.current_seal_invalid b) ≡ (e && clean a)
current_branches true a b = refl
current_branches false a b = clean-add _ b

clean-assess_current_by :
    (s : EvidenceState)
    → (g : SealedGenerationObservation) → (a : Assessment)
    → clean (assess_current_by s g a) ≡ (is_verified s && (exact g && clean a))
unfolding assess_current_by
clean-assess_current_by EvidenceState.verified g a = current_branches (exact g) a _
clean-assess_current_by EvidenceState.missing g a = clean-add _ a
clean-assess_current_by EvidenceState.invalid g a = clean-add _ a
clean-assess_current_by EvidenceState.unknown g a = clean-add_unknown _ a
clean-assess_current_by (EvidenceState.other s) g a = clean-add _ a

clean-assess_previous_by :
    (s : EvidenceState)
    → (g : SealedGenerationObservation) → (a : Assessment)
    → clean (assess_previous_by s g a) ≡ (is_verified s && (exact g && clean a))
unfolding assess_previous_by
clean-assess_previous_by EvidenceState.verified g a = clean-require _ _ a
clean-assess_previous_by EvidenceState.missing g a = clean-add _ a
clean-assess_previous_by EvidenceState.invalid g a = clean-add _ a
clean-assess_previous_by EvidenceState.unknown g a = clean-add_unknown _ a
clean-assess_previous_by (EvidenceState.other s) g a = clean-add _ a

exact_verified : (v e c : Bool) → (e ≡ true → v ≡ true) → (v && (e && c)) ≡ (e && c)
exact_verified v e c implies = ground arith

exact-verified : (g : SealedGenerationObservation) → exact g ≡ true → is_verified g.state ≡ true
unfolding exact
exact-verified g is_exact = ground arith

clean-assess_rollback_generation :
    (previous : Bool)
    → (g : SealedGenerationObservation) → (a : Assessment)
    → clean (assess_rollback_generation previous g a) ≡ (exact g && clean a)
unfolding assess_rollback_generation
clean-assess_rollback_generation false g a =
    clean-assess_current_by g.state g a ∙ exact_verified _ (exact g) (clean a) (exact-verified g)
clean-assess_rollback_generation true g a =
    clean-assess_previous_by g.state g a ∙ exact_verified _ (exact g) (clean a) (exact-verified g)

and_assoc : (a b c : Bool) → (a && b && c) ≡ (a && (b && c))
and_assoc a b c = ground arith

clean-assess_restore_by :
    (asked : Bool)
    → (p : ProtectionPointObservation) → (a : Assessment) → (b : Assessment)
    → clean b ≡ (is_verified p.state && (closed_id_pattern p.id && clean a))
    → clean (if asked then b else a)
      ≡ ((not asked || (is_verified p.state && closed_id_pattern p.id)) && clean a)
clean-assess_restore_by true p a b step =
    step ∙ sym (and_assoc (is_verified p.state) (closed_id_pattern p.id) (clean a))
clean-assess_restore_by false p a b step = refl

clean-assess_restore :
    (r : CompatibilityRecord)
    → (p : ProtectionPointObservation) → (a : Assessment)
    → clean (assess_restore r p a) ≡ (restorable r p && clean a)
unfolding assess_restore
clean-assess_restore r p a = clean-assess_restore_by _ p a _ (clean-assess_point p _ _ a)

nameless : generation_id_pattern [] ≡ false
unfolding generation_id_pattern yorva.Prelude.has_prefix
nameless = refl

named_id : (id : Bytes) → generation_id_pattern id ≡ true → is_empty id ≡ false
named_id [] named = sym named ∙ nameless
named_id (c ∷ id) named = refl

exact-named : (g : SealedGenerationObservation) → exact g ≡ true → is_empty g.generation_id ≡ false
unfolding exact
exact-named g is_exact = named_id g.generation_id (ground arith)

regroup_generations :
    (managed pointed sealed is_exact named unnamed before the_same : Bool)
    → (is_exact ≡ true → sealed ≡ true)
    → (is_exact ≡ true → unnamed ≡ false)
    → (not (not unnamed && the_same)
        && (not (pointed && sealed && not named)
            && (before && (is_exact && (pointed && (managed && true))))))
      ≡ (managed && pointed && is_exact && named && before && not the_same)
regroup_generations managed pointed sealed is_exact named unnamed before the_same implies has_id =
    ground arith

clean-assess_generations :
    (input : RollbackPlanInput) → clean (assess_generations input) ≡ generations_known input
unfolding assess_generations assess_distinct
clean-assess_generations input =
    rw
      (clean-require
        (not (
          not (is_empty input.current.generation_id)
          && same input.current.generation_id input.previous.generation_id))
        ReasonCode.previous_generation_same _)
      (rw (clean-assess_names input.active input.current _) (
        rw (clean-assess_rollback_generation true input.previous _) (
          rw (clean-assess_rollback_generation false input.current _) (
            rw (clean-assess_pointer input.active.state _) (
              rw (clean-assess_managed input.managed new_assessment) (
                regroup_generations (is_managed input.managed) (is_valid_pointer input.active.state)
                  (is_verified input.current.state) (exact input.current)
                  (names input.active input.current) (is_empty input.current.generation_id)
                  (exact input.previous)
                  (same input.current.generation_id input.previous.generation_id)
                  (exact-verified input.current) (exact-named input.current)))))))

regroup_rollback :
    (generations inventory pair restore checked qualified : Bool)
    → (checked && (qualified && (restore && (pair && (inventory && generations)))))
      ≡ (generations && (inventory && pair && restore && checked && qualified))
regroup_rollback generations inventory pair restore checked qualified = ground arith

clean-assess_rollback_evidence :
    (input : RollbackPlanInput)
    → clean (assess_rollback_evidence input)
      ≡ (generations_known input && rollback_evidence_complete input)
unfolding assess_rollback_evidence
clean-assess_rollback_evidence input = rw (clean-assess_postchecks input.postcheck_policy _ _) (
    rw (clean-assess_restore input.compatibility input.protection_restore _) (
      rw (clean-assess_compatibility input.compatibility _ _ _ _) (
        rw (clean-assess_inventory input.inventory _) (
          rw (clean-assess_generations input) (
            regroup_rollback (generations_known input) (is_verified input.inventory.state)
              (proves input.compatibility input.previous.identity input.current.identity false)
              (restorable input.compatibility input.protection_restore)
              (is_verified input.postcheck_policy.state)
              (postchecks_qualified input.postcheck_policy
                (required_postchecks input.inventory.features)))))))

abbrev pub is_eligible : RollbackEligibility → Bool
is_eligible RollbackEligibility.eligible = true
is_eligible _ = false

is_eligible-rollback_plan :
    (required : List Postcheck)
    → (rs : List ReasonCode) → (u : Bool)
    → is_eligible (rollback_plan required (record { reasons = rs; is_unknown = u })).eligibility
      ≡ no_reason rs
unfolding rollback_plan
is_eligible-rollback_plan required [] u = refl
is_eligible-rollback_plan required (r ∷ rs) true = refl
is_eligible-rollback_plan required (r ∷ rs) false = refl

-- A rollback is eligible exactly where the managed Runtime's pointer names an exact generation,
-- another exact generation came before it, and the inventory, the compatibility of the pair, the
-- protection point that it asks for and the postchecks are all proven.
pub assess_rollback_lem :
    (input : RollbackPlanInput)
    → is_eligible (assess_rollback input).eligibility
      ≡ (generations_known input && rollback_evidence_complete input)
unfolding assess_rollback
assess_rollback_lem input =
    is_eligible-rollback_plan (required_postchecks input.inventory.features)
      (assess_rollback_evidence input).reasons (assess_rollback_evidence input).is_unknown
    ∙ clean-assess_rollback_evidence input
