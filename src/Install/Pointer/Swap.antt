-- ===== src/Install/Pointer/Swap.antt =====
-- The compare-and-swap of the running installer and of recovery.
use yorva.Prelude.{true, false, ◌||◌, same, is_empty, ok, is_ok, ◌≡◌, ◌⊎◌, arith}
use yorva.Install.Types.{ActivePointer, is_missing, is_invalid, is_valid}
use yorva.Install.Records.{InstallTransaction}
use yorva.Install.Decide.Outcome.{expected_predecessor}
use yorva.Install.Transaction.{view}
use yorva.Install.Pointer.{snapshot_active_before, pointer_names_txn, cas_allows_activate}

-- The installer's compare-and-swap lets a transaction activate exactly when the pointer already
-- names it, or is the predecessor that recovery expects of the same record.
pub cas-eq-expected_predecessor :
    (txn : InstallTransaction) (p : ActivePointer)
    → is_ok (cas_allows_activate txn p)
      ≡ (pointer_names_txn p txn || expected_predecessor p (view txn))
unfolding cas_allows_activate expected_predecessor view is_invalid is_valid is_missing
cas-eq-expected_predecessor txn p = ground arith

-- Two observations of the pointer between which it was not replaced, as far as digests were kept.
abbrev pub Unreplaced : ActivePointer → ActivePointer → Type 0
Unreplaced p q =
    ((is_missing p ≡ true) × (is_missing q ≡ true))
    ⊎ ((is_valid p ≡ true)
        × (is_valid q ≡ true)
        × (same q.generation_id p.generation_id ≡ true)
        × ((is_empty p.seal_sha256 ≡ true) ⊎ (same q.seal_sha256 p.seal_sha256 ≡ true)))

-- After a snapshot of the pointer, the compare-and-swap lets the transaction activate over a pointer
-- that is not invalid and does not name it exactly when the pointer was not replaced since: both
-- are missing, or both are valid, of the same generation and, where a digest was kept, of the same
-- seal.
pub cas-snapshot :
    (txn txn' : InstallTransaction) (p q : ActivePointer)
    → snapshot_active_before txn p ≡ ok txn'
    → is_invalid q ≡ false
    → pointer_names_txn q txn' ≡ false
    → (is_ok (cas_allows_activate txn' q) ≡ true → Unreplaced p q)
      × (Unreplaced p q → is_ok (cas_allows_activate txn' q) ≡ true)
unfolding cas_allows_activate snapshot_active_before is_invalid is_valid is_missing
cas-snapshot txn txn' p q h v n = (λ e. ground arith, λ e. ground arith)
