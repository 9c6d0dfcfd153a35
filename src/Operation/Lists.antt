-- ===== src/Operation/Lists.antt =====
-- The queries of persistence/sqlite/operations.go that give a list.
pub mod Newest
pub mod Bounded
use yorva.Prelude.{
  ℕ, ℤ, pos, negsuc, is_positive, Bool, true, false, not, ◌&&◌, ◌||◌, List, [], ◌∷◌, Bytes, bytes,
  same, is_empty, if◌then◌else◌, ◌==◌, ltb, select, take, Result,
}
use yorva.Operation.Types.{OperationType, TargetType, target_type_eq, Operation}
use yorva.Operation.Constraints.{is_active}
use yorva.Operation.Errors.{OperationError}
use yorva.Operation.Table.{Rows}
use yorva.Operation.Queries.{
  scan_rows, order_rows, oldest_first, newest_first, is_validation, is_lifecycle,
}

-- The texts of the types.
unfoldable pub type_text : OperationType → Bytes
type_text OperationType.runtime_install = bytes "runtime.install"
type_text OperationType.hermes_prerequisites = bytes "hermes.prerequisites"
type_text OperationType.instance_create = bytes "instance.create"
type_text OperationType.instance_delete = bytes "instance.delete"
type_text OperationType.model_validate = bytes "model.validate"
type_text OperationType.model_profile_apply = bytes "model.profile.apply"
type_text OperationType.instance_start = bytes "instance.start"
type_text OperationType.instance_stop = bytes "instance.stop"
type_text OperationType.instance_restart = bytes "instance.restart"
type_text OperationType.channel_connect = bytes "channel.connect"
type_text OperationType.channel_disconnect = bytes "channel.disconnect"
type_text OperationType.skill_install = bytes "skill.install"
type_text OperationType.skill_update = bytes "skill.update"
type_text OperationType.skill_enable = bytes "skill.enable"
type_text OperationType.skill_disable = bytes "skill.disable"
type_text OperationType.skill_remove = bytes "skill.remove"
type_text OperationType.mcp_install = bytes "mcp.install"
type_text OperationType.mcp_authenticate = bytes "mcp.authenticate"
type_text OperationType.mcp_test = bytes "mcp.test"
type_text OperationType.mcp_configure = bytes "mcp.configure"
type_text OperationType.mcp_remove = bytes "mcp.remove"
type_text OperationType.backup_create = bytes "backup.create"
type_text OperationType.backup_delete = bytes "backup.delete"
type_text OperationType.backup_restore = bytes "backup.restore"
type_text OperationType.runtime_upgrade = bytes "runtime.upgrade"
type_text OperationType.runtime_rollback = bytes "runtime.rollback"
type_text (OperationType.other s) = s

-- `operation_type IN ('instance.create', 'instance.delete')`
abbrev pub is_instance_change : OperationType → Bool
is_instance_change OperationType.instance_create = true
is_instance_change OperationType.instance_delete = true
is_instance_change _ = false

abbrev pub is_channel : OperationType → Bool
is_channel OperationType.channel_connect = true
is_channel OperationType.channel_disconnect = true
is_channel _ = false

abbrev pub is_skill : OperationType → Bool
is_skill OperationType.skill_install = true
is_skill OperationType.skill_update = true
is_skill OperationType.skill_enable = true
is_skill OperationType.skill_disable = true
is_skill OperationType.skill_remove = true
is_skill _ = false

abbrev pub is_mcp : OperationType → Bool
is_mcp OperationType.mcp_install = true
is_mcp OperationType.mcp_authenticate = true
is_mcp OperationType.mcp_test = true
is_mcp OperationType.mcp_configure = true
is_mcp OperationType.mcp_remove = true
is_mcp _ = false

abbrev pub is_backup : OperationType → Bool
is_backup OperationType.backup_create = true
is_backup OperationType.backup_delete = true
is_backup OperationType.backup_restore = true
is_backup _ = false

abbrev pub is_runtime_management : OperationType → Bool
is_runtime_management OperationType.runtime_upgrade = true
is_runtime_management OperationType.runtime_rollback = true
is_runtime_management _ = false

-- The active operations of some types, the oldest first.
unfoldable pub list_active : (OperationType → Bool) → Rows → Result OperationError (List Operation)
unfolding scan_rows order_rows
list_active test rows =
    scan_rows (
      order_rows oldest_first
        (select (λ row. test row.operation_type && is_active row.status) rows))

-- ListActiveModelValidations
unfoldable pub list_active_model_validations : Rows → Result OperationError (List Operation)
unfolding list_active
list_active_model_validations rows = list_active is_validation rows

-- ListActiveOperationsByType
unfoldable pub list_active_operations_by_type :
    OperationType → Rows → Result OperationError (List Operation)
unfolding list_active type_text
list_active_operations_by_type t rows = list_active (λ u. same (type_text u) (type_text t)) rows

-- ListActiveInstanceOperations
unfoldable pub list_active_instance_operations : Rows → Result OperationError (List Operation)
unfolding list_active
list_active_instance_operations rows = list_active is_instance_change rows

-- ListActiveLifecycleOperations
unfoldable pub list_active_lifecycle_operations : Rows → Result OperationError (List Operation)
unfolding list_active
list_active_lifecycle_operations rows = list_active is_lifecycle rows

-- ListActiveChannelOperations
unfoldable pub list_active_channel_operations : Rows → Result OperationError (List Operation)
unfolding list_active
list_active_channel_operations rows = list_active is_channel rows

-- ListActiveSkillOperations
unfoldable pub list_active_skill_operations : Rows → Result OperationError (List Operation)
unfolding list_active
list_active_skill_operations rows = list_active is_skill rows

-- ListActiveMCPOperations
unfoldable pub list_active_mcp_operations : Rows → Result OperationError (List Operation)
unfolding list_active
list_active_mcp_operations rows = list_active is_mcp rows

-- ListActiveBackupOperations
unfoldable pub list_active_backup_operations : Rows → Result OperationError (List Operation)
unfolding list_active
list_active_backup_operations rows = list_active is_backup rows

-- ListActiveRuntimeManagementOperations
unfoldable pub list_active_runtime_management_operations :
    Rows → Result OperationError (List Operation)
unfolding list_active
list_active_runtime_management_operations rows = list_active is_runtime_management rows

-- `if filter.Limit <= 0 || filter.Limit > 50 { filter.Limit = 20 }`
abbrev pub list_limit : ℤ → ℕ
list_limit (negsuc n) = 20
list_limit (pos n) = if n == 0 then 20 else if ltb 50 n then 20 else n

-- The filter on the target's type; none where it is empty.
abbrev pub asks_type : TargetType → TargetType → Bool
asks_type (TargetType.other []) t = true
asks_type asked t = target_type_eq t asked

abbrev pub asked_row : TargetType → Bytes → Operation → Bool
asked_row t id row = asks_type t row.target_type && (is_empty id || same row.target_id id)

-- ListOperations
unfoldable pub list_operations :
    TargetType → Bytes → ℤ → Rows → Result OperationError (List Operation)
unfolding scan_rows order_rows
list_operations t id limit rows =
    scan_rows (take (list_limit limit) (order_rows newest_first (select (asked_row t id) rows)))
