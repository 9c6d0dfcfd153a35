-- ===== src/Install/Records.antt =====
-- errors.go, and the documents on disk: transaction.go, active_pointer.go, generation.go.
-- A time is a number, 0 the zero time; a `*time.Time` is an Option.
use yorva.Prelude.{ℕ, Option, List, Bytes}
use yorva.Install.Types.{TransactionState, Code, BeforeKind}

-- errors.go; `io` is an error of the operating system, `injected` one of a failpoint or a context.
pub data Err : Type 0 where
  invalid_id invalid_relative_path path_not_contained revision_conflict invalid_record : Err
  not_found lock_busy atomic_readback reparse_point managed_root_unset seal_invalid : Err
  staging_occupied generation_occupied publish_conflict blocked_unsafe not_observed : Err
  io injected : Err
  coded : Code → Err

pub record InstallTransaction : Type 0 where
  pub schema : ℕ
  pub revision : ℕ
  pub id : Bytes
  pub runtime_kind : Bytes
  pub operation_id : Bytes
  pub generation_id : Bytes
  pub state : TransactionState
  pub step : Bytes
  pub source_pin : Bytes
  pub expected_version : Bytes
  pub staging_relative_path : Bytes
  pub generation_relative_path : Bytes
  pub manifest_sha256 : Bytes
  pub seal_sha256 : Bytes
  pub active_before_kind : BeforeKind
  pub active_before_generation : Bytes
  pub active_before_digest : Bytes
  pub error_code : Code
  pub created_at : ℕ
  pub updated_at : ℕ
  pub sealed_at : Option ℕ
  pub published_at : Option ℕ
  pub activated_at : Option ℕ
  pub committed_at : Option ℕ

pub record ActiveRecord : Type 0 where
  pub schema : ℕ
  pub runtime_kind : Bytes
  pub generation_id : Bytes
  pub generation_relative_path : Bytes
  pub manifest_sha256 : Bytes
  pub seal_sha256 : Bytes
  pub source_pin : Bytes
  pub version : Bytes
  pub transaction_id : Bytes
  pub activated_at : ℕ

pub record CandidateRecord : Type 0 where
  pub schema : ℕ
  pub transaction_id : Bytes
  pub generation_id : Bytes
  pub runtime_kind : Bytes
  pub created_at : ℕ

pub record ManifestEntry : Type 0 where
  pub path : Bytes
  pub size : ℕ
  pub sha256 : Bytes

pub record ManifestFile : Type 0 where
  pub schema : ℕ
  pub entries : List ManifestEntry

pub record GenerationRecord : Type 0 where
  pub schema : ℕ
  pub lineage_id : Bytes
  pub transaction_id : Bytes
  pub generation_id : Bytes
  pub runtime_kind : Bytes
  pub source_pin : Bytes
  pub expected_version : Bytes
  pub generation_relative_path : Bytes
  pub manifest_sha256 : Bytes
  pub created_at : ℕ
  pub sealed_at : ℕ
