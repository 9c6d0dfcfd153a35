-- ===== src/App/Transactions/Linked.antt =====
-- The transaction that is created for an operation.
use yorva.Prelude.{
  ℕ, ◌+◌, ◌%◌, ◌^◌, Bool, true, false, not, ◌||◌, Option, none, some, Bytes, if◌then◌else◌, Result,
  ok, err, ◌≡◌, refl,
}
use mathlib.Core.Path.{subst}
use yorva.Prelude.Results.{◌>>=◌}
use yorva.Install.Types.{TransactionState, is_invalid}
use yorva.Install.Records.{Err, InstallTransaction}
use yorva.Install.Ids.{txn_prefix, gen_prefix, new_closed_id}
use yorva.Install.Transaction.{created_with, new_created_transaction}
use yorva.Install.Disk.{Disk}
use yorva.Install.Seal.{read_active}
use yorva.Install.Store.{
  load_transaction, save_transaction, has_nonterminal, fail_failable_nonterminals,
}
use yorva.Install.Store.Saved.{load-save}
use yorva.Operation.Types.{Operation}
use yorva.Operation.Queries.{is_install}
use yorva.App.Node.{Settings, InstallError}
use yorva.App.Transactions.{
  Random, not_ready, blocked, read_back, save_new, create_after, create_locked,
  persist_created_transaction, expected_version,
}

-- The record is on the disk, and belongs to the operation.
pub record Linked (id : Bytes) (txn : InstallTransaction) (d : Disk) : Type 0 where
  pub state : txn.state ≡ TransactionState.created
  pub operation_id : txn.operation_id ≡ id
  pub loaded : load_transaction txn.id d ≡ ok txn

abbrev Links : Bytes → Result InstallError (Option InstallTransaction) × Disk → Type 0
Links id (ok (some txn), d) = Linked id txn d
Links id (ok none, d) = Unit
Links id (err e, d) = Unit

loaded_back :
    (d : Disk)
    → (id : Bytes) → (new : InstallTransaction) → (found : Result Err InstallTransaction)
    → found ≡ load_transaction new.id d
    → load_transaction new.id d ≡ ok (record new { revision = (new.revision + 1) % 2 ^ 64 })
    → new.state ≡ TransactionState.created
    → new.operation_id ≡ id
    → Links id (elim found [ ok txn ↦ ok (some txn) | err e ↦ err (InstallError.install e) ], d)
loaded_back d id new (ok txn) same_found loaded state operation_id =
    subst (λ t. Linked id t d) (cc)
      (record { state = state; operation_id = operation_id; loaded = loaded })
loaded_back d id new (err e) same_found loaded state operation_id = tt

Links-read_back :
    (id : Bytes)
    → (new : InstallTransaction) → (d : Disk) → (saved : Result Err (Unit {0}) × Disk)
    → save_transaction new d ≡ saved
    → new.state ≡ TransactionState.created
    → new.operation_id ≡ id
    → Links id (read_back new.id saved)
unfolding read_back
Links-read_back id new d (ok u, e) h state operation_id =
    let (loaded, others, revision) = load-save new d e h in
    loaded_back e id new (load_transaction new.id e) refl loaded state operation_id
Links-read_back id new d (err x, e) h state operation_id = tt

Links-save_new :
    (id : Bytes)
    → (made : Result Err InstallTransaction) → (d : Disk)
    → ((txn : InstallTransaction)
        → made ≡ ok txn
        → (txn.state ≡ TransactionState.created) × (txn.operation_id ≡ id))
    → Links id (save_new made d)
unfolding save_new
Links-save_new id (ok txn) d fits =
    let (state, operation_id) = fits txn refl in
    Links-read_back id txn d (save_transaction txn d) refl state operation_id
Links-save_new id (err e) d fits = tt

ok_same :
    (r : Result Err InstallTransaction) → (a b : InstallTransaction) → r ≡ ok a → r ≡ ok b → a ≡ b
ok_same r a b first second = cc

checked_fits :
    (id : Bytes)
    → (new txn : InstallTransaction) → (checked : Result Err (Unit {0}))
    → new.state ≡ TransactionState.created
    → new.operation_id ≡ id
    → (checked >>= λ _. ok new) ≡ ok txn
    → (txn.state ≡ TransactionState.created) × (txn.operation_id ≡ id)
checked_fits id new txn (ok u) state operation_id h =
    subst (λ t. (t.state ≡ TransactionState.created) × (t.operation_id ≡ id))
      (ok_same (ok new) new txn refl h) (state, operation_id)
checked_fits id new txn (err e) state operation_id h = cc

new_fits :
    (txn_random gen_random runtime_kind operation_id source_pin version : Bytes)
    → (now : ℕ) → (txn : InstallTransaction)
    → new_created_transaction txn_random gen_random runtime_kind operation_id source_pin version now
      ≡ ok txn
    → (txn.state ≡ TransactionState.created) × (txn.operation_id ≡ operation_id)
unfolding new_created_transaction
new_fits txn_random gen_random runtime_kind operation_id source_pin version now txn h =
    checked_fits operation_id
      (created_with (new_closed_id txn_prefix txn_random) (new_closed_id gen_prefix gen_random)
        runtime_kind operation_id source_pin version now)
      txn _ refl refl h

Links-create_after :
    (s : Settings)
    → (random : Random) → (op : Operation) → (swept : Result Err (Unit {0}) × Disk)
    → Links op.id (create_after s random op swept)
unfolding create_after
Links-create_after s random op (err e, d) = tt
Links-create_after s random op (ok u, d) =
    elim (has_nonterminal d)
      as (λ b. Links op.id (
        if b
        then (err not_ready, d)
        else save_new
            (new_created_transaction random.txn random.gen op.target_id op.id op.source_pin
              (expected_version s) s.now)
            d)) [
              | true ↦ tt
              | false ↦ Links-save_new op.id _ d (
                  new_fits random.txn random.gen op.target_id op.id op.source_pin
                    (expected_version s) s.now)
            ]

Links-swept :
    (s : Settings)
    → (random : Random) → (op : Operation) → (d : Disk) → (invalid : Bool)
    → Links op.id (
        if invalid
        then (err blocked, d)
        else create_after s random op (fail_failable_nonterminals s.now d))
Links-swept s random op d true = tt
Links-swept s random op d false = Links-create_after s random op _

Links-create_locked :
    (s : Settings)
    → (random : Random) → (op : Operation) → (lock : Result Err (Unit {0})) → (d : Disk)
    → Links op.id (create_locked s random op lock d)
unfolding create_locked
Links-create_locked s random op (ok u) d = Links-swept s random op d (is_invalid (read_active d))
Links-create_locked s random op (err Err.lock_busy) d = tt
Links-create_locked s random op (err e) d = tt

Links-persisted :
    (s : Settings)
    → (random : Random) → (op : Operation) → (d : Disk) → (none_wanted : Bool)
    → Links op.id (if none_wanted then (ok none, d) else create_locked s random op s.lock d)
Links-persisted s random op d true = tt
Links-persisted s random op d false = Links-create_locked s random op s.lock d

-- A transaction that is created for an operation is CREATED, names the operation, and is what the
-- disk gives for its identifier.
pub persist_created_transaction_lem :
    (s : Settings)
    → (random : Random) → (op : Operation) → (d d' : Disk) → (txn : InstallTransaction)
    → persist_created_transaction s random op d ≡ (ok (some txn), d')
    → (txn.state ≡ TransactionState.created)
      × ((txn.operation_id ≡ op.id) × (load_transaction txn.id d' ≡ ok txn))
unfolding persist_created_transaction
persist_created_transaction_lem s random op d d' txn h =
    let linked =
      subst (Links op.id) h
        (Links-persisted s random op d (not s.rooted || not (is_install op.operation_type))) in
    (linked.state, (linked.operation_id, linked.loaded))
