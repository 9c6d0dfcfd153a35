-- ===== src/Install/Manager/Activate.antt =====
-- Manager.activate and Manager.markActivating (activate.go).
use yorva.Prelude.{
  ℕ, Bool, true, false, ◌&&◌, ◌||◌, Option, some, none, bytes, if◌then◌else◌, Result, ok, guard,
}
use yorva.Install.Types.{TransactionState, ActivePointer, is_invalid}
use yorva.Install.Records.{Err, invalid_record, blocked_unsafe, InstallTransaction, ActiveRecord}
use yorva.Install.Ids.{parse_generation_id}
use yorva.Install.Disk.{Disk, M, pure, raise, reads, ◌>>=◌, ◌>>◌, find}
use yorva.Install.Seal.{verify_sealed_tree, read_active}
use yorva.Install.Pointer.{snapshot_active_before, pointer_names_txn, cas_allows_activate}
use yorva.Install.Manager.Persist.{persist, now, write_active}

abbrev pub is_published : TransactionState → Bool
is_published TransactionState.published = true
is_published _ = false

abbrev pub is_activating : TransactionState → Bool
is_activating TransactionState.activating = true
is_activating _ = false

abbrev pub is_set : Option ℕ → Bool
is_set none = false
is_set (some t) = true

abbrev pub or_time : Option ℕ → ℕ → Option ℕ
or_time none time = some time
or_time (some t) time = some t

-- The integrity check of the transaction's generation on disk.
unfoldable pub verify_txn_tree : InstallTransaction → Disk → Result Err (Unit {0})
verify_txn_tree txn d =
    verify_sealed_tree d (find txn.generation_id d.generations) txn.generation_id
      txn.manifest_sha256 txn.seal_sha256

unfoldable pub pointer : M ActivePointer
pointer = reads (λ d. ok (read_active d))

-- Manager.markActivating
unfoldable pub mark_activating : InstallTransaction → M InstallTransaction
mark_activating txn = if is_activating txn.state && is_set txn.activated_at then pure txn else do
  time ← now
  persist (record txn {
    state = TransactionState.activating;
    step = bytes "activating";
    updated_at = time;
    activated_at = or_time txn.activated_at time;
  })

-- The record that activate writes to control/active.json.
unfoldable pub active_record_of : InstallTransaction → ℕ → ActiveRecord
active_record_of txn time = record {
  schema = 1;
  runtime_kind = txn.runtime_kind;
  generation_id = txn.generation_id;
  generation_relative_path = txn.generation_relative_path;
  manifest_sha256 = txn.manifest_sha256;
  seal_sha256 = txn.seal_sha256;
  source_pin = txn.source_pin;
  version = txn.expected_version;
  transaction_id = txn.id;
  activated_at = time;
}

-- The step from PUBLISHED: the pointer is remembered, then ACTIVATING is persisted.
unfoldable pub enter_activating : InstallTransaction → ActivePointer → M InstallTransaction
unfolding mark_activating
enter_activating txn p =
    if is_published txn.state
    then (do remembered ← reads (λ d. snapshot_active_before txn p); mark_activating remembered)
    else pure txn

-- The part of activate behind the compare-and-swap.
unfoldable pub swap_pointer : InstallTransaction → M InstallTransaction
swap_pointer txn = do
  time ← now
  write_active (active_record_of txn time)
  got ← pointer
  reads (λ d. guard (pointer_names_txn got txn) invalid_record)
  reads (verify_txn_tree txn)
  if is_set txn.activated_at
      then pure txn
      else persist (record txn { activated_at = some time; updated_at = time })

unfoldable pub compare_and_swap : InstallTransaction → M InstallTransaction
unfolding swap_pointer
compare_and_swap txn = do
  p ← pointer
  if is_invalid p
      then raise blocked_unsafe
      else if pointer_names_txn p txn
      then pure txn
      else (do reads (λ d. cas_allows_activate txn p); swap_pointer txn)

unfoldable pub activate_from : InstallTransaction → ActivePointer → M InstallTransaction
unfolding enter_activating compare_and_swap
activate_from txn p =
    if is_invalid p
    then raise blocked_unsafe
    else if pointer_names_txn p txn
    then mark_activating txn
    else (do entered ← enter_activating txn p; compare_and_swap entered)

-- Manager.activate
unfoldable pub activate : InstallTransaction → M InstallTransaction
unfolding activate_from pointer verify_txn_tree
activate txn = do
  reads (λ d. guard (is_published txn.state || is_activating txn.state) invalid_record)
  reads (λ d. parse_generation_id txn.generation_id)
  reads (verify_txn_tree txn)
  p ← pointer
  activate_from txn p
