-- ===== src/Examples/Upgrades.antt =====
-- Samples and runs of the plans for upgrades and rollbacks.
use yorva.Prelude.{ℤ, pos, true, false, List, [], ◌∷◌, ◌++◌, Bytes, bytes, ◌≡◌, refl}
use yorva.Upgrade.Identity.{ArtifactIdentity, SourceIdentity, SnapshotIdentity}
use yorva.Upgrade.Policy.{
  EvidenceState, ManagedState, ActivePointerState, ActivePointerObservation,
  SealedGenerationObservation, TargetObservation, FeatureInventory, InventoryObservation,
  ProtectionPointObservation, CompatibilitySafety, MigrationBehavior, CompatibilityRecord,
  Postcheck, PostcheckQualification,
}
use yorva.Upgrade.Plan.{UpgradeAvailability, UpgradePlanInput, build_upgrade_plan}
use yorva.Upgrade.Plan.Available.{build_upgrade_plan_lem}
use yorva.Upgrade.Rollback.{RollbackPlanInput, assess_rollback}
use yorva.Upgrade.Rollback.Eligible.{is_eligible, assess_rollback_lem}
use yorva.Examples.Samples.{digest_m, digest_g, gen_id}

abbrev artifact : ArtifactIdentity
artifact = record { size_bytes = pos 10; sha256 = digest_m }

abbrev identity_at : Bytes → SnapshotIdentity
identity_at version = record {
  version = version;
  commit = bytes "cccccccccccccccccccccccccccccccccccccccc";
  archive = artifact;
  license_path = bytes "LICENSE";
  license = artifact;
  source = record {
    repository = bytes "nous/hermes";
    archive_root = bytes "hermes-1";
    installer_path = bytes "scripts/install.ps1";
    installer = artifact;
  };
}

abbrev older : SnapshotIdentity
older = identity_at (bytes "0.19.0")

abbrev newer : SnapshotIdentity
newer = identity_at (bytes "0.20.5")

abbrev generation_at : Bytes → SnapshotIdentity → SealedGenerationObservation
generation_at id identity = record {
  state = EvidenceState.verified;
  generation_id = id;
  seal_sha256 = digest_g;
  manifest_sha256 = digest_m;
  lineage_proven = true;
  identity = identity;
}

abbrev pointer : ActivePointerObservation
pointer = record {
  state = ActivePointerState.valid;
  generation_id = gen_id;
  seal_sha256 = digest_g;
  manifest_sha256 = digest_m;
}

abbrev inventory : InventoryObservation
inventory = record {
  state = EvidenceState.verified;
  features = record {
    models = true;
    gateways = false;
    channels = false;
    skills = false;
    mcp = false;
  };
}

abbrev point : ProtectionPointObservation
point = record { state = EvidenceState.verified; id = bytes "backup-1" }

abbrev proof_of : SnapshotIdentity → SnapshotIdentity → CompatibilityRecord
proof_of from to = record {
  state = EvidenceState.verified;
  id = bytes "pair-1";
  windows_evidence_id = bytes "win-1";
  from = from;
  to = to;
  from_config_schema = pos 1;
  to_config_schema = pos 2;
  user_data_inventory_complete = true;
  migration = MigrationBehavior.automatic;
  upgrade = CompatibilitySafety.proven;
  rollback = CompatibilitySafety.proven;
  protection_restore_required = true;
}

abbrev policy : PostcheckQualification
policy = record {
  state = EvidenceState.verified;
  qualified =
      Postcheck.active_seal ∷ Postcheck.dual_launchers ∷ Postcheck.discovery ∷ Postcheck.profiles
      ∷ Postcheck.models ∷ Postcheck.health_security ∷ [];
}

abbrev ready : UpgradePlanInput
ready = record {
  managed = ManagedState.managed;
  active = pointer;
  current = generation_at gen_id older;
  target = record { state = EvidenceState.verified; compiled = newer; observed = newer };
  inventory = inventory;
  protection_point = point;
  compatibility = proof_of older newer;
  postcheck_policy = policy;
}

abbrev back : RollbackPlanInput
back = record {
  managed = ManagedState.managed;
  active = pointer;
  current = generation_at gen_id newer;
  previous = generation_at (bytes "gen_cccccccccccccccccccccc") older;
  inventory = inventory;
  compatibility = proof_of older newer;
  protection_restore = point;
  postcheck_policy = policy;
}

build_upgrade_plan_lem_example :
    (build_upgrade_plan ready).availability ≡ UpgradeAvailability.available
unfolding yorva.Upgrade.Plan.already_active yorva.Upgrade.Policy.exact
    yorva.Upgrade.Patterns.generation_id_pattern yorva.Prelude.has_prefix
    yorva.Upgrade.Patterns.sha256_pattern yorva.Upgrade.Identity.validate_identity
    yorva.Upgrade.Identity.identity_eq yorva.Prelude.same yorva.Upgrade.Patterns.version_pattern
    yorva.Upgrade.Patterns.commit_pattern yorva.Upgrade.Patterns.safe_relative_path
    yorva.Prelude.contains_byte yorva.Upgrade.Patterns.repository_pattern
    yorva.Upgrade.Patterns.root_pattern yorva.Upgrade.Policy.names yorva.Upgrade.Assess.target_exact
    yorva.Upgrade.Patterns.closed_id_pattern yorva.Install.Paths.split_slash
    yorva.Install.Validate.all_hex yorva.Upgrade.Identity.artifact_eq
    yorva.Upgrade.Identity.source_eq yorva.Upgrade.Identity.validate_artifact
    yorva.Upgrade.Identity.validate_source yorva.Upgrade.Patterns.all_bytes
    yorva.Upgrade.Patterns.clean yorva.Upgrade.Patterns.relative_pattern
    yorva.Upgrade.Patterns.some_bytes yorva.Upgrade.Patterns.split_byte
    yorva.Upgrade.Patterns.starts_alnum yorva.Upgrade.Assess.well_formed_record
    yorva.Upgrade.Policy.postchecks_qualified yorva.Upgrade.Policy.required_postchecks
build_upgrade_plan_lem_example = build_upgrade_plan_lem ready

assess_rollback_lem_example : is_eligible (assess_rollback back).eligibility ≡ true
unfolding yorva.Upgrade.Policy.exact yorva.Upgrade.Patterns.generation_id_pattern
    yorva.Prelude.has_prefix yorva.Upgrade.Patterns.sha256_pattern
    yorva.Upgrade.Identity.validate_identity yorva.Upgrade.Identity.identity_eq yorva.Prelude.same
    yorva.Upgrade.Patterns.version_pattern yorva.Upgrade.Patterns.commit_pattern
    yorva.Upgrade.Patterns.safe_relative_path yorva.Prelude.contains_byte
    yorva.Upgrade.Patterns.repository_pattern yorva.Upgrade.Patterns.root_pattern
    yorva.Upgrade.Policy.names yorva.Upgrade.Assess.well_formed_record
    yorva.Upgrade.Patterns.closed_id_pattern yorva.Upgrade.Policy.postchecks_qualified
    yorva.Install.Paths.split_slash yorva.Install.Validate.all_hex
    yorva.Upgrade.Identity.artifact_eq yorva.Upgrade.Identity.source_eq
    yorva.Upgrade.Identity.validate_artifact yorva.Upgrade.Identity.validate_source
    yorva.Upgrade.Patterns.all_bytes yorva.Upgrade.Patterns.clean
    yorva.Upgrade.Patterns.relative_pattern yorva.Upgrade.Patterns.some_bytes
    yorva.Upgrade.Patterns.split_byte yorva.Upgrade.Patterns.starts_alnum
    yorva.Upgrade.Policy.has_check yorva.Upgrade.Policy.has_checks yorva.Upgrade.Policy.postcheck_eq
    yorva.Upgrade.Policy.qualified_from yorva.Upgrade.Policy.required_postchecks
assess_rollback_lem_example = assess_rollback_lem back
