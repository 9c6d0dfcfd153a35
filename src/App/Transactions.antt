-- ===== src/App/Transactions.antt =====
-- The transaction on disk that belongs to an operation: runtime_install.go.
pub mod Linked
use yorva.Prelude.{
  ℕ, Bool, true, false, not, ◌&&◌, ◌||◌, Option, none, some, [], Bytes, bytes, is_empty,
  if◌then◌else◌, Result, ok, err,
}
use yorva.Install.Types.{TransactionState, is_invalid, terminal}
use yorva.Install.Records.{Err, InstallTransaction}
use yorva.Install.Transaction.{new_created_transaction}
use yorva.Install.Disk.{Disk}
use yorva.Install.Seal.{read_active}
use yorva.Install.Store.{
  load_transaction, save_transaction, has_nonterminal, fail_failable_nonterminals, interrupted_txn,
}
use yorva.Operation.Types.{Operation}
use yorva.Operation.Queries.{is_install}
use yorva.App.Node.{Settings, InstallError}

-- What rand.Read gives for the two identifiers of a transaction.
pub record Random : Type 0 where
  pub txn : Bytes
  pub gen : Bytes

abbrev pub not_ready : InstallError
not_ready = InstallError.rejection (bytes "INSTALL_NOT_READY") true []

abbrev pub blocked : InstallError
blocked = InstallError.rejection (bytes "INSTALL_BLOCKED_UNSAFE") false []

abbrev pub expected_version : Settings → Bytes
expected_version s = elim s.applier [ none ↦ [] | some (pin, version) ↦ version ]

-- The record that is saved is read back.
unfoldable pub read_back :
    Bytes → Result Err (Unit {0}) × Disk → Result InstallError (Option InstallTransaction) × Disk
read_back id (ok u, d) = (
  elim (load_transaction id d) [ ok txn ↦ ok (some txn) | err e ↦ err (InstallError.install e) ],
  d,
)
read_back id (err e, d) = (err (InstallError.install e), d)

unfoldable pub save_new :
    Result Err InstallTransaction → Disk → Result InstallError (Option InstallTransaction) × Disk
unfolding read_back
save_new (ok txn) d = read_back txn.id (save_transaction txn d)
save_new (err e) d = (err (InstallError.install e), d)

unfoldable pub create_after :
    Settings
    → Random
    → Operation
    → Result Err (Unit {0}) × Disk
    → Result InstallError (Option InstallTransaction) × Disk
unfolding save_new
create_after s random op (ok u, d) =
    if has_nonterminal d
    then (err not_ready, d)
    else save_new
        (new_created_transaction random.txn random.gen op.target_id op.id op.source_pin
          (expected_version s) s.now)
        d
create_after s random op (err e, d) = (err (InstallError.install e), d)

unfoldable pub create_locked :
    Settings
    → Random
    → Operation
    → Result Err (Unit {0})
    → Disk
    → Result InstallError (Option InstallTransaction) × Disk
unfolding create_after
create_locked s random op (err Err.lock_busy) d = (err not_ready, d)
create_locked s random op (err e) d = (err (InstallError.install e), d)
create_locked s random op (ok u) d =
    if is_invalid (read_active d)
    then (err blocked, d)
    else create_after s random op (fail_failable_nonterminals s.now d)

-- persistCreatedTransaction; no transaction stands for the empty one
unfoldable pub persist_created_transaction :
    Settings → Random → Operation → Disk → Result InstallError (Option InstallTransaction) × Disk
unfolding create_locked
persist_created_transaction s random op d =
    if not s.rooted || not (is_install op.operation_type)
    then (ok none, d)
    else create_locked s random op s.lock d

fail_loaded : ℕ → Result Err InstallTransaction → Disk → Disk
fail_loaded now (err e) d = d
fail_loaded now (ok txn) d =
    if terminal txn.state then d else (save_transaction (interrupted_txn now txn) d).1

-- markTransactionFailed
unfoldable pub mark_transaction_failed : Settings → Option InstallTransaction → Disk → Disk
unfolding fail_loaded
mark_transaction_failed s none d = d
mark_transaction_failed s (some txn) d =
    if not s.rooted || is_empty txn.id then d else fail_loaded s.now (load_transaction txn.id d) d

-- loadLinkedTransaction
unfoldable pub load_linked_transaction : Settings → Operation → Disk → Option InstallTransaction
load_linked_transaction s op d =
    if not s.rooted || is_empty op.transaction_id
    then none
    else elim (load_transaction op.transaction_id d) [ ok txn ↦ some txn | err e ↦ none ]

abbrev pub owns_state : TransactionState → Bool
owns_state TransactionState.activating = true
owns_state TransactionState.committed = true
owns_state _ = false

abbrev pub owned_by : Option InstallTransaction → Bool
owned_by none = false
owned_by (some txn) = owns_state txn.state

-- filesystemOwnsOperation
unfoldable pub filesystem_owns_operation : Settings → Operation → Disk → Bool
unfolding load_linked_transaction
filesystem_owns_operation s op d = owned_by (load_linked_transaction s op d)
