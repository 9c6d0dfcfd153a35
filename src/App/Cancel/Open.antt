-- ===== src/App/Cancel/Open.antt =====
-- A cancellation that is in time.
use yorva.Prelude.{Bytes, Result, ok, ◌≡◌}
use yorva.Operation.Types.{Status, Operation}
use yorva.Operation.Table.Rows.{IsConsistent}
use yorva.Operation.Queries.{get_operation}
use yorva.App.Node.Stored.{Stored}
use yorva.App.Node.{Node, InstallError}

-- A call that cancelled the operation, and the operation as it is stored after it.
pub record Cancels (id : Bytes) (next : Operation) (out : Result InstallError Operation × Node)
    : Type 0 where
  pub returned : out.0 ≡ ok next
  pub stored : get_operation id out.1.rows ≡ ok next
  pub consistent : IsConsistent out.1.rows
