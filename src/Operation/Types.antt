-- ===== src/Operation/Types.antt =====
-- domain/operation/operation.go: the types of an operation.
use yorva.Prelude.{ℕ, Bool, true, false, Option, Bytes, same}

-- Type, the kind of an operation.
pub data OperationType : Type 0 where
  runtime_install hermes_prerequisites : OperationType
  instance_create instance_delete : OperationType
  model_validate model_profile_apply : OperationType
  instance_start instance_stop instance_restart : OperationType
  channel_connect channel_disconnect : OperationType
  skill_install skill_update skill_enable skill_disable skill_remove : OperationType
  mcp_install mcp_authenticate mcp_test mcp_configure mcp_remove : OperationType
  backup_create backup_delete backup_restore : OperationType
  runtime_upgrade runtime_rollback : OperationType
  other : Bytes → OperationType

pub data TargetType : Type 0 where
  runtime_kind runtime_installation instance_target : TargetType
  other : Bytes → TargetType

pub data Status : Type 0 where
  pending running succeeded failed cancelled : Status
  other : Bytes → Status

-- A stage and an error code are stored and never inspected here. Times are numbers.
pub record Operation : Type 0 where
  pub id : Bytes
  pub operation_type : OperationType
  pub target_type : TargetType
  pub target_id : Bytes
  pub status : Status
  pub stage : Bytes
  pub progress : Option ℕ
  pub message : Bytes
  pub error_code : Bytes
  pub error_message : Bytes
  pub retryable : Bool
  pub idempotency_key : Bytes
  pub correlation_id : Bytes
  pub source_pin : Bytes
  pub ownership_nonce : Bytes
  pub transaction_id : Bytes
  pub created_at : ℕ
  pub started_at : Option ℕ
  pub completed_at : Option ℕ
  pub updated_at : ℕ

unfoldable pub status_eq : Status → Status → Bool
status_eq Status.pending Status.pending = true
status_eq Status.running Status.running = true
status_eq Status.succeeded Status.succeeded = true
status_eq Status.failed Status.failed = true
status_eq Status.cancelled Status.cancelled = true
status_eq (Status.other s) (Status.other t) = same s t
status_eq _ _ = false

unfoldable pub target_type_eq : TargetType → TargetType → Bool
target_type_eq TargetType.runtime_kind TargetType.runtime_kind = true
target_type_eq TargetType.runtime_installation TargetType.runtime_installation = true
target_type_eq TargetType.instance_target TargetType.instance_target = true
target_type_eq (TargetType.other s) (TargetType.other t) = same s t
target_type_eq _ _ = false
