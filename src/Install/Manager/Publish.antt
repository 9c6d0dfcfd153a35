-- ===== src/Install/Manager/Publish.antt =====
-- Manager.publish (publish.go) and Manager.PublishAndActivate (manager.go).
use yorva.Prelude.{
  Bool, true, false, not, ◌&&◌, ◌||◌, Option, some, none, Bytes, bytes, if◌then◌else◌, Result, ok,
  err, guard, is_ok,
}
use yorva.Install.Types.{TransactionState, Code}
use yorva.Install.Records.{
  Err, invalid_record, blocked_unsafe, seal_invalid, publish_conflict, reparse_point,
  InstallTransaction,
}
use yorva.Install.Ids.{parse_generation_id, parse_transaction_id}
use yorva.Install.Disk.{Disk, Tree, M, pure, raise, reads, ◌>>=◌, ◌>>◌, write, find, remove}
use yorva.Install.Seal.{reject_reparse}
use yorva.Install.Store.{load_transaction}
use yorva.Install.Observe.{dir_empty}
use yorva.Install.Manager.Persist.{persist, fail, now, outcome}
use yorva.Install.Manager.Activate.{is_published, is_activating, verify_txn_tree, activate}

abbrev pub is_sealed_state : TransactionState → Bool
is_sealed_state TransactionState.sealed = true
is_sealed_state _ = false

-- The staging directory of a sealed transaction: none, an empty one, or one with a tree in it.
unfoldable pub staging_blocks : Disk → Option Tree → Bool
staging_blocks d none = false
staging_blocks d (some t) = not (is_ok (reject_reparse d (some t)) && t.directory && dir_empty t)

abbrev pub is_present : Option Tree → Bool
is_present none = false
is_present (some t) = true

-- `os.Remove` of the empty staging directory, if there is one
unfoldable pub clear_staging : InstallTransaction → M (Unit {0})
unfolding staging_blocks
clear_staging txn = do
  reads (λ d. parse_transaction_id txn.id)
  reads (λ d. guard (not (staging_blocks d (find txn.id d.staging))) blocked_unsafe)
  present ← reads (λ d. ok (is_present (find txn.id d.staging)))
  if present then write (λ d. record d { staging = remove txn.id d.staging }) else pure tt

-- observePublishedTree finds the generation sealed.
unfoldable pub destination_sealed : InstallTransaction → Disk → Result Err (Unit {0})
destination_sealed txn d = elim (find txn.generation_id d.generations) [
  | none ↦ err seal_invalid
  | some t ↦
      guard (is_ok (reject_reparse d (some t)) && t.directory && is_ok (verify_txn_tree txn d))
        publish_conflict
]

unfoldable pub publish_sealed : InstallTransaction → M InstallTransaction
unfolding clear_staging destination_sealed
publish_sealed txn = do
  reads (λ d. parse_generation_id txn.generation_id)
  write (λ d. d)
  reads (λ d. guard (not d.reparse) reparse_point)
  clear_staging txn
  reads (destination_sealed txn)
  reads (verify_txn_tree txn)
  time ← now
  persist (record txn {
    state = TransactionState.published;
    step = bytes "published";
    published_at = some time;
    updated_at = time;
  })

-- Manager.publish
unfoldable pub publish : InstallTransaction → M InstallTransaction
unfolding publish_sealed
publish txn =
    if is_published txn.state || is_activating txn.state
    then pure txn
    else if not (is_sealed_state txn.state)
    then raise invalid_record
    else publish_sealed txn

-- Manager.publishError: only a conflict or a broken seal fails the transaction.
unfoldable pub publish_error : InstallTransaction → Err → M InstallTransaction
publish_error txn publish_conflict = fail txn Code.publish_conflict
publish_error txn seal_invalid = fail txn Code.publish_conflict
publish_error txn e = raise e

or_publish_error : InstallTransaction → Result Err InstallTransaction → M InstallTransaction
unfolding publish_error
or_publish_error loaded (ok txn) = pure txn
or_publish_error loaded (err e) = publish_error loaded e

-- Manager.PublishAndActivate
unfoldable pub publish_and_activate : Bytes → M InstallTransaction
unfolding or_publish_error
publish_and_activate id = do
  loaded ← reads (load_transaction id)
  reads (λ d.
      guard
        (is_sealed_state loaded.state || is_published loaded.state || is_activating loaded.state)
        invalid_record)
  published ← outcome (publish loaded)
  txn ← or_publish_error loaded published
  activate txn
