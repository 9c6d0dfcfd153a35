-- ===== src/Install/Manager/Persist.antt =====
-- Manager.persist and Manager.fail (manager.go), and Store.WriteActive (active_pointer.go).
use yorva.Prelude.{
  ℕ, Bool, true, false, ◌&&◌, some, Bytes, same, ltb, if◌then◌else◌, Result, ok, err,
}
use yorva.Install.Types.{TransactionState, Code}
use yorva.Install.Records.{Err, coded, InstallTransaction, ActiveRecord}
use yorva.Install.Paths.{reject_unsafe_rel}
use yorva.Install.Validate.{validate_active_record}
use yorva.Install.Disk.{Disk, M, raise, reads, ◌>>=◌, ◌>>◌, write}
use yorva.Install.Store.{load_transaction, save_transaction, ensure_control}
use yorva.Install.Seal.{load_active}

-- After a failed save, a record of a later revision on disk is adopted.
adopted : Result Err InstallTransaction → InstallTransaction → Err → Result Err InstallTransaction
adopted (ok loaded) txn e =
    if same loaded.id txn.id && ltb txn.revision loaded.revision then ok loaded else err e
adopted (err e') txn e = err e

after_save : InstallTransaction → Result Err (Unit {0}) → Disk → Result Err InstallTransaction
unfolding adopted
after_save txn (ok saved) d = load_transaction txn.id d
after_save txn (err e) d = adopted (load_transaction txn.id d) txn e

-- What a computation returned, error or not, as a value.
unfoldable pub outcome : {A : Type 0} → M A → M (Result Err A)
outcome m d = let (r, d') = m d in (ok r, d')

-- Manager.persist
unfoldable pub persist : InstallTransaction → M InstallTransaction
unfolding after_save outcome
persist txn = do saved ← outcome (save_transaction txn); reads (after_save txn saved)

-- m.now()
unfoldable pub now : M ℕ
now = reads (λ d. ok d.clock)

-- Whether the active record names a generation.
unfoldable pub active_record_names : Bytes → Disk → Bool
active_record_names generation_id d = elim (load_active d) [
  | ok rec ↦ same rec.generation_id generation_id
  | err e ↦ false
]

-- Manager.fail: it always returns an error, unless the record could not be written.
unfoldable pub fail : InstallTransaction → Code → M InstallTransaction
unfolding now active_record_names
fail txn code = do
  time ← now
  active ← reads (λ d. ok (active_record_names txn.generation_id d))
  persist (
      if active
      then record txn {
        state = TransactionState.activating;
        error_code = Code.unset;
        updated_at = time;
      }
      else record txn { state = TransactionState.failed; error_code = code; updated_at = time })
  raise (coded code)

-- Store.WriteActive
unfoldable pub write_active : ActiveRecord → M (Unit {0})
unfolding ensure_control
write_active rec = do
  reads (λ d. validate_active_record rec)
  ensure_control
  reads (λ d. reject_unsafe_rel rec.generation_relative_path)
  write (λ d. record d { active = some (record { plain = true; content = some rec }) })
