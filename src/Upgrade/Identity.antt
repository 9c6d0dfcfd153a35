-- ===== src/Upgrade/Identity.antt =====
-- identity.go: the identity of a snapshot of the Runtime's source.
use yorva.Prelude.{
  ℤ, pos, int_eq, is_positive, Bool, not, ◌&&◌, ◌||◌, [], Bytes, same, leb, length, Result, guard,
}
use yorva.Prelude.Results.{◌>>◌}
use yorva.Upgrade.Patterns.{
  version_pattern, commit_pattern, sha256_pattern, repository_pattern, root_pattern,
  safe_relative_path,
}

pub data IdentityError : Type 0 where
  identity_invalid identity_unknown : IdentityError

pub record ArtifactIdentity : Type 0 where
  pub size_bytes : ℤ
  pub sha256 : Bytes

pub record SourceIdentity : Type 0 where
  pub repository : Bytes
  pub archive_root : Bytes
  pub installer_path : Bytes
  pub installer : ArtifactIdentity

pub record SnapshotIdentity : Type 0 where
  pub version : Bytes
  pub commit : Bytes
  pub archive : ArtifactIdentity
  pub license_path : Bytes
  pub license : ArtifactIdentity
  pub source : SourceIdentity

abbrev pub no_artifact : ArtifactIdentity
no_artifact = record { size_bytes = pos 0; sha256 = [] }

-- SnapshotIdentity{}
abbrev pub no_identity : SnapshotIdentity
no_identity = record {
  version = [];
  commit = [];
  archive = no_artifact;
  license_path = [];
  license = no_artifact;
  source = record {
    repository = [];
    archive_root = [];
    installer_path = [];
    installer = no_artifact;
  };
}

unfoldable pub artifact_eq : ArtifactIdentity → ArtifactIdentity → Bool
artifact_eq a b = int_eq a.size_bytes b.size_bytes && same a.sha256 b.sha256

unfoldable pub source_eq : SourceIdentity → SourceIdentity → Bool
unfolding artifact_eq
source_eq a b =
    same a.repository b.repository
    && same a.archive_root b.archive_root
    && same a.installer_path b.installer_path
    && artifact_eq a.installer b.installer

-- SnapshotIdentity.Equal
unfoldable pub identity_eq : SnapshotIdentity → SnapshotIdentity → Bool
unfolding source_eq artifact_eq
identity_eq a b =
    same a.version b.version
    && same a.commit b.commit
    && artifact_eq a.archive b.archive
    && same a.license_path b.license_path
    && artifact_eq a.license b.license
    && source_eq a.source b.source

-- ArtifactIdentity.validate
unfoldable pub validate_artifact : ArtifactIdentity → Result IdentityError (Unit {0})
validate_artifact a =
    guard (not (not (is_positive a.size_bytes) || not (sha256_pattern a.sha256)))
      IdentityError.identity_invalid

-- SourceIdentity.validate
unfoldable pub validate_source : SourceIdentity → Result IdentityError (Unit {0})
unfolding validate_artifact
validate_source s = do
  guard
      (leb (length s.repository) 192
        && repository_pattern s.repository
        && root_pattern s.archive_root
        && safe_relative_path s.installer_path)
      IdentityError.identity_invalid
  validate_artifact s.installer

-- SnapshotIdentity.Validate
unfoldable pub validate_identity : SnapshotIdentity → Result IdentityError (Unit {0})
unfolding validate_source validate_artifact
validate_identity i = do
  guard (not (identity_eq i no_identity)) IdentityError.identity_unknown
  guard
      (leb (length i.version) 32
        && version_pattern i.version
        && commit_pattern i.commit
        && safe_relative_path i.license_path)
      IdentityError.identity_invalid
  validate_artifact i.archive
  validate_artifact i.license
  validate_source i.source
