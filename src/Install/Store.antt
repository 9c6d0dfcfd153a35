-- ===== src/Install/Store.antt =====
-- transaction_store.go: the transaction records under control/transactions.
pub mod Saved
use yorva.Prelude.{
  ℕ, ◌+◌, ◌%◌, ◌^◌, Bool, true, false, not, ◌&&◌, ◌||◌, Option, none, some, List, [], ◌∷◌, ◌++◌,
  Bytes, bytes, same, has_prefix, is_empty, if◌then◌else◌, ◌==◌, ltb, length, drop, Result, ok, err,
  guard, is_ok,
}
use yorva.Prelude.Results.{bind_result}
use yorva.Install.Types.{
  is_committed, is_failed, TransactionState, nonterminal, Code, BeforeKind, TransactionView,
}
use yorva.Install.Records.{
  Err, io, not_found, invalid_record, revision_conflict, reparse_point, InstallTransaction,
}
use yorva.Install.Ids.{
  txn_file_suffix, parse_transaction_id, occupies_reserved_txn_name, transaction_file_name,
}
use yorva.Install.Validate.{validate_transaction}
use yorva.Install.Transaction.{view}
use yorva.Install.Disk.{Disk, TransactionFile, M, pure, raise, reads, ◌>>=◌, ◌>>◌, write}

unfoldable pub find_file : Bytes → List TransactionFile → Option TransactionFile
find_file name [] = none
find_file name (file ∷ files) = if same file.name name then some file else find_file name files

-- decodeTransaction
unfoldable pub decode_transaction : Option InstallTransaction → Result Err InstallTransaction
decode_transaction none = err invalid_record
decode_transaction (some txn) = bind_result (validate_transaction txn) (λ _. ok txn)

unfoldable pub load_file : Option TransactionFile → Result Err InstallTransaction
unfolding decode_transaction
load_file none = err not_found
load_file (some file) = if file.directory then err io else decode_transaction file.content

-- Store.LoadTransaction; the path of a record is safe whenever its identifier parses.
unfoldable pub load_transaction : Bytes → Disk → Result Err InstallTransaction
unfolding load_file find_file
load_transaction id d =
    bind_result (parse_transaction_id id)
      (λ _. load_file (find_file (transaction_file_name id) d.transactions))

-- The order in which os.ReadDir lists names.
comes_before : Bytes → Bytes → Bool
comes_before [] [] = false
comes_before [] (y ∷ ys) = true
comes_before (x ∷ xs) [] = false
comes_before (x ∷ xs) (y ∷ ys) = ltb x y || x == y && comes_before xs ys

-- The listing after a file is replaced or created.
unfoldable pub put_file : TransactionFile → List TransactionFile → List TransactionFile
unfolding comes_before
put_file file [] = file ∷ []
put_file file (f ∷ fs) =
    let rest = put_file file fs in
    if same f.name file.name
    then file ∷ fs
    else if comes_before file.name f.name
    then file ∷ f ∷ fs
    else f ∷ rest

-- Layout.EnsureControl
unfoldable pub ensure_control : M (Unit {0})
ensure_control = do reads (λ d. guard (not d.reparse) reparse_point); write (λ d. d)

-- The revision that SaveTransaction expects, from what it reads of the current record.
unfoldable pub expected_revision : Result Err InstallTransaction → Result Err ℕ
expected_revision (ok current) = ok current.revision
expected_revision (err not_found) = ok 0
expected_revision (err e) = err e

unfoldable pub write_transaction : InstallTransaction → M (Unit {0})
write_transaction txn = write (λ d. record d {
  transactions =
      put_file
        (record { name = transaction_file_name txn.id; directory = false; content = some txn })
        d.transactions;
})

-- The revision is a uint64.
unfoldable pub next_revision : ℕ → ℕ
next_revision n = (n + 1) % 2 ^ 64

-- Store.SaveTransaction
unfoldable pub save_transaction : InstallTransaction → M (Unit {0})
unfolding ensure_control expected_revision write_transaction next_revision
save_transaction txn = do
  reads (λ d. validate_transaction txn)
  ensure_control
  expected ← reads (λ d. expected_revision (load_transaction txn.id d))
  reads (λ d. guard (txn.revision == expected) revision_conflict)
  write_transaction (record txn { revision = next_revision expected })

-- strings.TrimSuffix
trim_suffix : Bytes → Bytes → Bytes
trim_suffix [] suffix = []
trim_suffix (c ∷ s) suffix =
    let rest = trim_suffix s suffix in if same (c ∷ s) suffix then [] else c ∷ rest

has_suffix : Bytes → Bytes → Bool
has_suffix [] suffix = is_empty suffix
has_suffix (c ∷ s) suffix = same (c ∷ s) suffix || has_suffix s suffix

malformed_view : Bytes → TransactionView
malformed_view id = record {
  valid = false;
  occupies_reserved_name = true;
  id = id;
  state = TransactionState.unset;
  generation_id = [];
  active_before = [];
  active_before_digest = [];
  active_before_kind = BeforeKind.unset;
  staging_rel = [];
  generation_rel = [];
}

loaded_view : Bytes → Result Err InstallTransaction → TransactionView
unfolding malformed_view
loaded_view id (err e) = malformed_view id
loaded_view id (ok txn) = if not (same txn.id id) then malformed_view id else view txn

-- The view of one entry that occupies a reserved name. A listing has no name twice, so the
-- collision that the source looks for does not arise.
file_view : Disk → TransactionFile → TransactionView
unfolding loaded_view trim_suffix has_suffix
file_view d file =
    let id = trim_suffix file.name txn_file_suffix in
    if not (is_ok (parse_transaction_id id))
      || not (has_suffix file.name txn_file_suffix)
      || file.directory
    then malformed_view id
    else loaded_view id (load_transaction id d)

views_of : Disk → List TransactionFile → List TransactionView
unfolding file_view
views_of d [] = []
views_of d (file ∷ files) =
    let rest = views_of d files in
    if has_prefix file.name (bytes ".yorva-atom-") || not (occupies_reserved_txn_name file.name)
    then rest
    else file_view d file ∷ rest

-- Store.inspectTransactions
unfoldable pub inspect_transactions : Disk → List TransactionView
unfolding views_of load_transaction
inspect_transactions d = views_of d d.transactions

unfoldable pub any_view : (TransactionState → Bool) → List TransactionView → Bool
any_view test [] = false
any_view test (v ∷ vs) = v.valid && test v.state || any_view test vs

-- Store.HasNonterminal
unfoldable pub has_nonterminal : Disk → Bool
unfolding any_view
has_nonterminal d = any_view nonterminal (inspect_transactions d)

-- Store.HasCommitted (environment.go)
unfoldable pub has_committed : Disk → Bool
unfolding any_view inspect_transactions
has_committed d = not d.reparse && any_view is_committed (inspect_transactions d)

-- `view.Valid && (view.State == StateCreated || view.State == StateBuilding)`
abbrev pub is_failable : TransactionView → Bool
is_failable v = v.valid && elim v.state [
  | TransactionState.created ↦ true
  | TransactionState.building ↦ true
  | _ ↦ false
]

-- The record that FailFailableNonterminals writes.
abbrev pub interrupted_txn : ℕ → InstallTransaction → InstallTransaction
interrupted_txn now txn = record txn {
  state = TransactionState.failed;
  error_code = Code.interrupted;
  updated_at = now;
}

unfoldable pub fail_one : ℕ → TransactionView → M (Unit {0})
unfolding save_transaction
fail_one now v = do txn ← reads (load_transaction v.id); save_transaction (interrupted_txn now txn)

-- The loop of FailFailableNonterminals.
unfoldable pub fail_each : ℕ → List TransactionView → M (Unit {0})
unfolding fail_one
fail_each now [] = pure tt
fail_each now (v ∷ vs) =
    let rest = fail_each now vs in if is_failable v then fail_one now v >> rest else rest

-- Store.FailFailableNonterminals
unfoldable pub fail_failable_nonterminals : ℕ → M (Unit {0})
unfolding fail_each
fail_failable_nonterminals now d = fail_each now (inspect_transactions d) d
