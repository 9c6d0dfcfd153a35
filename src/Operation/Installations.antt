-- ===== src/Operation/Installations.antt =====
-- The table of accepted installations (persistence/sqlite/installations.go). The foreign key asks for a
-- node that `known` has; what the driver reports is a parameter.
pub mod Upserted
use yorva.Prelude.{
  ℕ, ◌+◌, Bool, true, false, not, ◌&&◌, ◌||◌, Option, none, some, List, [], ◌∷◌, ◌++◌, Bytes, bytes,
  same, is_empty, if◌then◌else◌, ◌==◌, Result, ok, err, length,
}
use yorva.Prelude.Results.{bind_result}
use yorva.Operation.Types.{Status, status_eq, Operation}
use yorva.Operation.Status.{valid_status_change}
use yorva.Operation.Constraints.{Constraint}
use yorva.Operation.Table.{Rows, Report, update_rows, affected, broken}

-- AcceptedInstallation
pub record AcceptedInstallation : Type 0 where
  pub id : Bytes
  pub node_id : Bytes
  pub runtime_kind : Bytes
  pub install_path : Bytes
  pub version : Bytes
  pub support_state : Bytes
  pub status : Bytes
  pub last_detected_at : ℕ
  pub created_at : ℕ
  pub updated_at : ℕ

abbrev pub Installations : Type 0
Installations = List AcceptedInstallation

pub data InstallationError : Type 0 where
  requires_path_and_version not_found invalid_status_transition : InstallationError
  primary_key_broken foreign_key_broken : InstallationError
  complete_failed : Bytes → InstallationError

-- `node_id = ? AND runtime_kind = ? AND install_path = ?`
abbrev pub has_key : Bytes → Bytes → Bytes → AcceptedInstallation → Bool
has_key node kind path row =
    same row.node_id node && same row.runtime_kind kind && same row.install_path path

abbrev pub at_key_of : AcceptedInstallation → AcceptedInstallation → Bool
at_key_of value row = has_key value.node_id value.runtime_kind value.install_path row

-- `DO UPDATE SET`
unfoldable pub refreshed : AcceptedInstallation → AcceptedInstallation → AcceptedInstallation
refreshed value row = record row {
  version = value.version;
  support_state = value.support_state;
  status = value.status;
  last_detected_at = value.last_detected_at;
  updated_at = value.updated_at;
}

unfoldable pub find_row :
    (AcceptedInstallation → Bool) → Installations → Option AcceptedInstallation
find_row p [] = none
find_row p (row ∷ rows) = let rest = find_row p rows in if p row then some row else rest

-- The row at the key of a value is refreshed by it.
unfoldable pub refresh : AcceptedInstallation → Installations → Installations
unfolding refreshed
refresh value [] = []
refresh value (row ∷ rows) =
    let rest = refresh value rows in
    if at_key_of value row then refreshed value row ∷ rows else row ∷ rest

-- The insertion where no row has the key.
unfoldable pub insert_new :
    (Bytes → Bool)
    → AcceptedInstallation
    → Installations
    → Option AcceptedInstallation
    → Result InstallationError Installations
insert_new known value rows (some other) = err InstallationError.primary_key_broken
insert_new known value rows none =
    if known value.node_id
    then ok (rows ++ value ∷ [])
    else err InstallationError.foreign_key_broken

unfoldable pub upsert_found :
    (Bytes → Bool)
    → AcceptedInstallation
    → Installations
    → Option AcceptedInstallation
    → Result InstallationError Installations
unfolding refresh insert_new find_row
upsert_found known value rows (some row) = ok (refresh value rows)
upsert_found known value rows none =
    insert_new known value rows (find_row (λ row. same row.id value.id) rows)

-- The statement `INSERT ... ON CONFLICT(node_id, runtime_kind, install_path)`
unfoldable pub upsert :
    (Bytes → Bool) → AcceptedInstallation → Installations → Result InstallationError Installations
unfolding upsert_found find_row
upsert known value rows = upsert_found known value rows (find_row (at_key_of value) rows)

-- UpsertAcceptedInstallation
unfoldable pub upsert_accepted_installation :
    (Bytes → Bool) → AcceptedInstallation → Installations → Result InstallationError Installations
unfolding upsert
upsert_accepted_installation known value rows =
    if is_empty value.install_path || is_empty value.version
    then err InstallationError.requires_path_and_version
    else upsert known value rows

-- The scan of the row that a query gives.
unfoldable pub scan_accepted :
    Option AcceptedInstallation → Result InstallationError AcceptedInstallation
scan_accepted none = err InstallationError.not_found
scan_accepted (some value) = ok value

-- GetAcceptedInstallation
unfoldable pub get_accepted_installation :
    Bytes → Bytes → Bytes → Installations → Result InstallationError AcceptedInstallation
unfolding find_row scan_accepted
get_accepted_installation node kind path rows =
    scan_accepted (find_row (has_key node kind path) rows)

-- CountAcceptedInstallations
unfoldable pub count_accepted_installations : Installations → ℕ
count_accepted_installations rows = length rows

-- The UPDATE of CompleteInstallSuccess, by the constraints that its rows break.
unfoldable pub complete_effect : Report → ℕ → Rows → List Constraint → Result InstallationError Rows
complete_effect report count rows [] =
    if count == 1 then ok rows else err InstallationError.invalid_status_transition
complete_effect report count rows (c ∷ cs) = err (InstallationError.complete_failed (report c cs))

-- It selects the row by the identifier of the next operation.
abbrev pub completed_row : Operation → Operation → Operation
completed_row current next = record current { id = next.id }

unfoldable pub complete_operation :
    Report → Operation → Operation → Rows → Result InstallationError Rows
unfolding complete_effect
complete_operation report current next rows =
    let rows' = update_rows (completed_row current next) next rows in
    complete_effect report (affected (completed_row current next) rows) rows' (broken rows')

-- CompleteInstallSuccess: both tables after its transaction
unfoldable pub complete_install_success :
    Report
    → (Bytes → Bool)
    → Operation
    → Operation
    → AcceptedInstallation
    → Rows × Installations
    → Result InstallationError (Rows × Installations)
unfolding complete_operation upsert
complete_install_success report known current next value (rows, accepted) =
    if not (status_eq current.status next.status)
      && not (valid_status_change current.status next.status)
    then err InstallationError.invalid_status_transition
    else bind_result (complete_operation report current next rows)
        (λ rows'. bind_result (upsert known value accepted) (λ accepted'. ok (rows', accepted')))
