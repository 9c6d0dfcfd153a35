-- ===== src/Operation/Constraints.antt =====
-- The constraints on the table of operations that persistence/sqlite/migrations declare, as they are
-- after the last migration.
use yorva.Prelude.{
  ℕ, Bool, true, false, not, ◌&&◌, ◌||◌, Option, none, some, List, [], ◌∷◌, Bytes, same,
}
use yorva.Operation.Types.{OperationType, TargetType, Status, Operation, target_type_eq}

-- `status IN ('PENDING', 'RUNNING')`
abbrev pub is_active : Status → Bool
is_active Status.pending = true
is_active Status.running = true
is_active _ = false

abbrev pub is_installation : TargetType → Bool
is_installation TargetType.runtime_installation = true
is_installation _ = false

abbrev pub is_instance : TargetType → Bool
is_instance TargetType.instance_target = true
is_instance _ = false

-- `operation_type IN ('runtime.install', 'hermes.prerequisites')`
abbrev pub is_host_mutation : OperationType → Bool
is_host_mutation OperationType.runtime_install = true
is_host_mutation OperationType.hermes_prerequisites = true
is_host_mutation _ = false

-- The types of operations_one_active_instance_mutation.
abbrev pub is_instance_mutation : OperationType → Bool
is_instance_mutation OperationType.instance_create = true
is_instance_mutation OperationType.instance_delete = true
is_instance_mutation OperationType.model_profile_apply = true
is_instance_mutation OperationType.backup_create = true
is_instance_mutation OperationType.backup_delete = true
is_instance_mutation OperationType.backup_restore = true
is_instance_mutation OperationType.runtime_upgrade = true
is_instance_mutation OperationType.runtime_rollback = true
is_instance_mutation _ = false

-- The types of operations_one_active_instance_runtime_mutation.
abbrev pub is_runtime_mutation : OperationType → Bool
is_runtime_mutation OperationType.instance_start = true
is_runtime_mutation OperationType.instance_stop = true
is_runtime_mutation OperationType.instance_restart = true
is_runtime_mutation OperationType.channel_connect = true
is_runtime_mutation OperationType.channel_disconnect = true
is_runtime_mutation OperationType.skill_install = true
is_runtime_mutation OperationType.skill_update = true
is_runtime_mutation OperationType.skill_enable = true
is_runtime_mutation OperationType.skill_disable = true
is_runtime_mutation OperationType.skill_remove = true
is_runtime_mutation OperationType.mcp_install = true
is_runtime_mutation OperationType.mcp_authenticate = true
is_runtime_mutation OperationType.mcp_test = true
is_runtime_mutation OperationType.mcp_configure = true
is_runtime_mutation OperationType.mcp_remove = true
is_runtime_mutation _ = false

-- The types of a mutation that concerns all instances of an installation.
abbrev pub is_wide_mutation : OperationType → Bool
is_wide_mutation OperationType.model_profile_apply = true
is_wide_mutation OperationType.backup_create = true
is_wide_mutation OperationType.backup_restore = true
is_wide_mutation OperationType.runtime_upgrade = true
is_wide_mutation OperationType.runtime_rollback = true
is_wide_mutation _ = false

-- A constraint, by its column or the name of its index or trigger.
pub data Constraint : Type 0 where
  status_check primary_key idempotency_key : Constraint
  host_mutation instance_mutation runtime_mutation : Constraint
  runtime_wide_trigger instance_trigger : Constraint

-- The rows that one of the three partial indexes is on.
unfoldable pub indexed : Constraint → Operation → Bool
indexed Constraint.host_mutation op = is_active op.status && is_host_mutation op.operation_type
indexed Constraint.instance_mutation op =
    is_active op.status && is_installation op.target_type && is_instance_mutation op.operation_type
indexed Constraint.runtime_mutation op =
    is_active op.status && is_instance op.target_type && is_runtime_mutation op.operation_type
indexed _ op = false

abbrev pub same_target : Operation → Operation → Bool
same_target a b = target_type_eq a.target_type b.target_type && same a.target_id b.target_id

-- Whether two rows break a unique constraint together.
unfoldable pub clash : Constraint → Operation → Operation → Bool
unfolding indexed
clash Constraint.primary_key a b = same a.id b.id
clash Constraint.idempotency_key a b = same a.idempotency_key b.idempotency_key
clash c a b = indexed c a && indexed c b && same_target a b

-- The CHECK on status and completed_at.
abbrev pub completion_ok : Status → Option ℕ → Bool
completion_ok Status.pending none = true
completion_ok Status.running none = true
completion_ok Status.succeeded (some t) = true
completion_ok Status.failed (some t) = true
completion_ok Status.cancelled (some t) = true
completion_ok _ _ = false

unfoldable pub any_row : (Operation → Bool) → List Operation → Bool
any_row test [] = false
any_row test (row ∷ rows) = test row || any_row test rows

unfoldable pub any_pair : (Operation → Operation → Bool) → List Operation → Bool
any_pair test [] = false
any_pair test (row ∷ rows) = any_row (test row) rows || any_pair test rows

-- Whether the rows break a constraint.
unfoldable pub breaks : Constraint → List Operation → Bool
unfolding any_pair any_row
breaks Constraint.status_check rows =
    any_row (λ row. not (completion_ok row.status row.completed_at)) rows
breaks c rows = any_pair (clash c) rows

-- An active mutation of all instances of an installation.
abbrev pub is_wide : Operation → Bool
is_wide op =
    is_active op.status && is_installation op.target_type && is_wide_mutation op.operation_type

-- An active mutation of one instance.
abbrev pub is_narrow : Operation → Bool
is_narrow op =
    is_active op.status && is_instance op.target_type && is_runtime_mutation op.operation_type

abbrev pub belongs : Option Bytes → Bytes → Bool
belongs none installation = false
belongs (some i) installation = same i installation

-- Whether the instance of the one operation belongs to the installation of the other; `installs`
-- is the table of instances.
abbrev pub overlaps : (Bytes → Option Bytes) → Operation → Operation → Bool
overlaps installs wide narrow =
    is_wide wide && is_narrow narrow && belongs (installs narrow.target_id) wide.target_id

-- What an insertion breaks: a constraint on rows, or one of the two triggers.
unfoldable pub breaks_on_insert :
    (Bytes → Option Bytes) → Constraint → Operation → List Operation → Bool
unfolding breaks
breaks_on_insert installs Constraint.runtime_wide_trigger op rows =
    any_row (λ row. overlaps installs op row) rows
breaks_on_insert installs Constraint.instance_trigger op rows =
    any_row (λ row. overlaps installs row op) rows
breaks_on_insert installs c op rows = breaks c (op ∷ rows)

abbrev pub constraints : List Constraint
constraints =
    Constraint.runtime_wide_trigger ∷ Constraint.instance_trigger ∷ Constraint.status_check
    ∷ Constraint.primary_key ∷ Constraint.idempotency_key ∷ Constraint.host_mutation
    ∷ Constraint.instance_mutation ∷ Constraint.runtime_mutation ∷ []
