-- ===== src/Upgrade/Policy.antt =====
-- policy.go: the observations that a plan is made from, and the postchecks.
use yorva.Prelude.{
  ℕ, ℤ, Bool, true, false, not, ◌&&◌, ◌||◌, List, [], ◌∷◌, ◌++◌, Bytes, same, is_ok, if◌then◌else◌,
  ◌==◌,
}
use yorva.Upgrade.Patterns.{generation_id_pattern, sha256_pattern}
use yorva.Upgrade.Identity.{SnapshotIdentity, validate_identity}

pub data EvidenceState : Type 0 where
  verified missing invalid unknown : EvidenceState
  other : Bytes → EvidenceState

pub data ManagedState : Type 0 where
  managed unmanaged unknown : ManagedState
  other : Bytes → ManagedState

pub data ActivePointerState : Type 0 where
  valid missing invalid unknown : ActivePointerState
  other : Bytes → ActivePointerState

pub record ActivePointerObservation : Type 0 where
  pub state : ActivePointerState
  pub generation_id : Bytes
  pub seal_sha256 : Bytes
  pub manifest_sha256 : Bytes

pub record SealedGenerationObservation : Type 0 where
  pub state : EvidenceState
  pub generation_id : Bytes
  pub seal_sha256 : Bytes
  pub manifest_sha256 : Bytes
  pub lineage_proven : Bool
  pub identity : SnapshotIdentity

abbrev pub is_verified : EvidenceState → Bool
is_verified EvidenceState.verified = true
is_verified _ = false

abbrev pub is_valid_pointer : ActivePointerState → Bool
is_valid_pointer ActivePointerState.valid = true
is_valid_pointer _ = false

abbrev pub is_managed : ManagedState → Bool
is_managed ManagedState.managed = true
is_managed _ = false

-- SealedGenerationObservation.exact
unfoldable pub exact : SealedGenerationObservation → Bool
exact g =
    is_verified g.state
    && generation_id_pattern g.generation_id
    && sha256_pattern g.seal_sha256
    && sha256_pattern g.manifest_sha256
    && g.lineage_proven
    && is_ok (validate_identity g.identity)

-- ActivePointerObservation.names
unfoldable pub names : ActivePointerObservation → SealedGenerationObservation → Bool
names a g =
    is_valid_pointer a.state
    && same a.generation_id g.generation_id
    && same a.seal_sha256 g.seal_sha256
    && same a.manifest_sha256 g.manifest_sha256

pub record TargetObservation : Type 0 where
  pub state : EvidenceState
  pub compiled : SnapshotIdentity
  pub observed : SnapshotIdentity

pub record FeatureInventory : Type 0 where
  pub models : Bool
  pub gateways : Bool
  pub channels : Bool
  pub skills : Bool
  pub mcp : Bool

pub record InventoryObservation : Type 0 where
  pub state : EvidenceState
  pub features : FeatureInventory

pub record ProtectionPointObservation : Type 0 where
  pub state : EvidenceState
  pub id : Bytes

pub data CompatibilitySafety : Type 0 where
  proven unsafe unknown : CompatibilitySafety
  other : Bytes → CompatibilitySafety

-- CompatibilitySafety.valid
abbrev pub valid_safety : CompatibilitySafety → Bool
valid_safety (CompatibilitySafety.other s) = false
valid_safety _ = true

pub data MigrationBehavior : Type 0 where
  none automatic deferred lazy : MigrationBehavior
  other : Bytes → MigrationBehavior

-- MigrationBehavior.valid
abbrev pub valid_migration : MigrationBehavior → Bool
valid_migration (MigrationBehavior.other s) = false
valid_migration _ = true

pub record CompatibilityRecord : Type 0 where
  pub state : EvidenceState
  pub id : Bytes
  pub windows_evidence_id : Bytes
  pub from : SnapshotIdentity
  pub to : SnapshotIdentity
  pub from_config_schema : ℤ
  pub to_config_schema : ℤ
  pub user_data_inventory_complete : Bool
  pub migration : MigrationBehavior
  pub upgrade : CompatibilitySafety
  pub rollback : CompatibilitySafety
  pub protection_restore_required : Bool

pub data Postcheck : Type 0 where
  active_seal dual_launchers discovery profiles models : Postcheck
  lifecycle channels skills mcp health_security : Postcheck
  other : Bytes → Postcheck

-- Postcheck.valid
abbrev pub valid_postcheck : Postcheck → Bool
valid_postcheck (Postcheck.other s) = false
valid_postcheck _ = true

pub record PostcheckQualification : Type 0 where
  pub state : EvidenceState
  pub qualified : List Postcheck

pub data Conflict : Type 0 where
  runtime_install prerequisites restore backup_mutation instance_mutation : Conflict
  lifecycle_mutation channel_mutation skill_mutation mcp_mutation : Conflict

-- conflicts, a copy of closedConflictSet
abbrev pub conflicts : List Conflict
conflicts =
    Conflict.runtime_install ∷ Conflict.prerequisites ∷ Conflict.restore ∷ Conflict.backup_mutation
    ∷ Conflict.instance_mutation ∷ Conflict.lifecycle_mutation ∷ Conflict.channel_mutation
    ∷ Conflict.skill_mutation ∷ Conflict.mcp_mutation ∷ []

abbrev pub check_if : Bool → Postcheck → List Postcheck
check_if needed check = if needed then check ∷ [] else []

-- requiredPostchecks
unfoldable pub required_postchecks : FeatureInventory → List Postcheck
required_postchecks features =
    Postcheck.active_seal
    ∷ Postcheck.dual_launchers
    ∷ Postcheck.discovery
    ∷ Postcheck.profiles
    ∷ (check_if features.models Postcheck.models
        ++ (check_if features.gateways Postcheck.lifecycle
            ++ (check_if features.channels Postcheck.channels
                ++ (check_if features.skills Postcheck.skills
                    ++ (check_if features.mcp Postcheck.mcp ++ Postcheck.health_security ∷ [])))))

postcheck_index : Postcheck → ℕ
postcheck_index Postcheck.active_seal = 0
postcheck_index Postcheck.dual_launchers = 1
postcheck_index Postcheck.discovery = 2
postcheck_index Postcheck.profiles = 3
postcheck_index Postcheck.models = 4
postcheck_index Postcheck.lifecycle = 5
postcheck_index Postcheck.channels = 6
postcheck_index Postcheck.skills = 7
postcheck_index Postcheck.mcp = 8
postcheck_index Postcheck.health_security = 9
postcheck_index (Postcheck.other s) = 10

-- `a == b` on postchecks
unfoldable pub postcheck_eq : Postcheck → Postcheck → Bool
unfolding postcheck_index
postcheck_eq (Postcheck.other s) (Postcheck.other t) = same s t
postcheck_eq a b = postcheck_index a == postcheck_index b

-- `_, ok := seen[check]`
unfoldable pub has_check : List Postcheck → Postcheck → Bool
unfolding postcheck_eq
has_check [] check = false
has_check (c ∷ seen) check = postcheck_eq c check || has_check seen check

unfoldable pub has_checks : List Postcheck → List Postcheck → Bool
unfolding has_check
has_checks seen [] = true
has_checks seen (check ∷ rest) = has_check seen check && has_checks seen rest

-- The loop that fills `seen`, and what the second loop says of it; false on an early return.
unfoldable pub qualified_from : List Postcheck → List Postcheck → List Postcheck → Bool
unfolding has_checks
qualified_from seen [] required = has_checks seen required
qualified_from seen (check ∷ rest) required =
    if not (valid_postcheck check)
    then false
    else if has_check seen check
    then false
    else qualified_from (check ∷ seen) rest required

-- postchecksQualified
unfoldable pub postchecks_qualified : PostcheckQualification → List Postcheck → Bool
unfolding qualified_from
postchecks_qualified policy required =
    if not (is_verified policy.state) then false else qualified_from [] policy.qualified required
