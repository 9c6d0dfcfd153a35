-- ===== src/Install/Pointer.antt =====
-- The compare-and-swap on the active pointer (activate.go): what a transaction remembers of the
-- pointer before it, and when it may replace the pointer.
pub mod Swap
use yorva.Prelude.{
  Bool, true, false, not, ◌&&◌, ◌||◌, [], Bytes, same, is_empty, if◌then◌else◌, Result, ok, err,
}
use yorva.Install.Types.{BeforeKind, ActivePointer, is_missing, is_invalid, is_valid}
use yorva.Install.Records.{Err, blocked_unsafe, InstallTransaction}
use yorva.Install.Decide.Outcome.{before_kind}

-- snapshotActiveBefore
unfoldable pub snapshot_active_before :
    InstallTransaction → ActivePointer → Result Err InstallTransaction
snapshot_active_before txn pointer =
    if is_invalid pointer
    then err blocked_unsafe
    else if is_missing pointer
    then ok (record txn {
      active_before_kind = BeforeKind.absent;
      active_before_generation = [];
      active_before_digest = [];
    })
    else if not (is_valid pointer)
    then err blocked_unsafe
    else ok (record txn {
      active_before_kind = BeforeKind.valid;
      active_before_generation = pointer.generation_id;
      active_before_digest = pointer.seal_sha256;
    })

-- pointerNamesTxn
unfoldable pub pointer_names_txn : ActivePointer → InstallTransaction → Bool
pointer_names_txn pointer txn =
    is_valid pointer
    && same pointer.generation_id txn.generation_id
    && same pointer.seal_sha256 txn.seal_sha256

cas_by_kind : BeforeKind → InstallTransaction → ActivePointer → Result Err (Unit {0})
cas_by_kind BeforeKind.absent txn pointer =
    if not (is_missing pointer) then err blocked_unsafe else ok tt
cas_by_kind BeforeKind.valid txn pointer =
    if not (is_valid pointer) || not (same pointer.generation_id txn.active_before_generation)
    then err blocked_unsafe
    else if not (is_empty txn.active_before_digest)
        && not (same pointer.seal_sha256 txn.active_before_digest)
    then err blocked_unsafe
    else ok tt
cas_by_kind _ txn pointer = err blocked_unsafe

-- casAllowsActivate
unfoldable pub cas_allows_activate : InstallTransaction → ActivePointer → Result Err (Unit {0})
unfolding cas_by_kind before_kind pointer_names_txn
cas_allows_activate txn pointer =
    if is_invalid pointer
    then err blocked_unsafe
    else if pointer_names_txn pointer txn
    then ok tt
    else cas_by_kind (before_kind txn.active_before_kind txn.active_before_generation) txn pointer
