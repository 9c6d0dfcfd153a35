-- ===== src/Install/Store/Saved.antt =====
-- Reading a record back after it was saved, and optimistic concurrency by revisions.
use mathlib.Core.List.{append_cancel_right}
use yorva.Prelude.{
  ℕ, ◌+◌, ◌%◌, ◌^◌, ◌≡◌, ◌≢◌, refl, sym, ap, ◌∙◌, inl, inr, false, some, List, [], ◌∷◌, ◌++◌, Bytes,
  same, same_refl, same_iff, Result, ok, arith, Bool-cases, ◌==◌,
}
use yorva.Prelude.Results.{guard-ok, bind_result}
use yorva.Install.Records.{Err, InstallTransaction}
use yorva.Install.Ids.{parse_transaction_id, transaction_file_name, txn_file_suffix}
use yorva.Install.Validate.{validate_transaction}
use yorva.Install.Disk.{Disk, TransactionFile, write}
use yorva.Install.Disk.Frame.{IsFrame, Frames-bind, Frames-reads, Frames-write}
use yorva.Install.Disk.Steps.{reads_inv, bind_inv, write_inv}
use yorva.Install.Store.{
  find_file, put_file, load_file, decode_transaction, load_transaction, expected_revision,
  ensure_control, write_transaction, next_revision, save_transaction,
}

find_file-put_file_self :
    (file : TransactionFile) (files : List TransactionFile)
    → find_file file.name (put_file file files) ≡ some file
unfolding find_file put_file
find_file-put_file_self file [] = ground (arith, same_refl file.name)
find_file-put_file_self file (f ∷ fs) =
    ground (arith, same_refl file.name, find_file-put_file_self file fs)

find_file-put_file_other :
    (name : Bytes) (file : TransactionFile) (files : List TransactionFile)
    → same file.name name ≡ false
    → find_file name (put_file file files) ≡ find_file name files
unfolding find_file put_file
find_file-put_file_other name file [] h = ground arith
find_file-put_file_other name file (f ∷ fs) h =
    ground (arith, same_iff f.name file.name, find_file-put_file_other name file fs h)

file_names_differ :
    (a b : Bytes) → a ≢ b → same (transaction_file_name a) (transaction_file_name b) ≡ false
unfolding transaction_file_name
file_names_differ a b h = elim (Bool-cases (same (a ++ txn_file_suffix) (b ++ txn_file_suffix))) [
  | inl e ↦ absurd (h (append_cancel_right a b txn_file_suffix ((same_iff _ _).0 e)))
  | inr e ↦ e
]

-- What a successful save went through.
pub record Saved (txn : InstallTransaction) (d e : Disk) : Type 0 where
  pub valid : validate_transaction txn ≡ ok tt
  pub expected : expected_revision (load_transaction txn.id d) ≡ ok txn.revision
  pub files :
      e.transactions
      ≡ put_file
          (record {
            name = transaction_file_name txn.id;
            directory = false;
            content = some (record txn { revision = next_revision txn.revision });
          })
          d.transactions

-- The relation that ensure_control keeps: the records stay.
SameRecords : Disk → Disk → Type 0
SameRecords d e = e.transactions ≡ d.transactions

records_frame : IsFrame SameRecords
unfolding SameRecords
records_frame = record { same = λ d. refl; chain = λ a b c h k. k ∙ h; spend = λ d fates. refl }

transactions-ensure_control : (d : Disk) → (ensure_control d).1.transactions ≡ d.transactions
unfolding ensure_control SameRecords
transactions-ensure_control d =
    (Frames-bind records_frame _ _ (Frames-reads records_frame _)
        (λ _. Frames-write records_frame (λ e. e) (λ e. refl))).at
      d

transactions-write_transaction :
    (txn : InstallTransaction) (d e : Disk)
    → write_transaction txn d ≡ (ok tt, e)
    → e.transactions
      ≡ put_file
          (record { name = transaction_file_name txn.id; directory = false; content = some txn })
          d.transactions
unfolding write_transaction write
transactions-write_transaction txn d e h =
    let (rest, w) = write_inv d.fates _ d (ap (λ (p : Result Err Unit × Disk). p.0) h) in
    ap (λ (p : Result Err Unit × Disk). p.1.transactions) (sym h)
    ∙ ap (λ (x : Disk). x.transactions) w

load-of_records :
    (id : Bytes) (d e : Disk)
    → e.transactions ≡ d.transactions
    → load_transaction id e ≡ load_transaction id d
unfolding load_transaction
load-of_records id d e h =
    ap
      (λ fs.
        bind_result (parse_transaction_id id)
          (λ _. load_file (find_file (transaction_file_name id) fs)))
      h

Saved-from :
    (txn : InstallTransaction) (d c e : Disk) (expected : ℕ)
    → validate_transaction txn ≡ ok tt
    → c.transactions ≡ d.transactions
    → expected_revision (load_transaction txn.id c) ≡ ok expected
    → expected ≡ txn.revision
    → write_transaction (record txn { revision = next_revision expected }) c ≡ (ok tt, e)
    → Saved txn d e
Saved-from txn d c e expected valid same_files found agrees wrote = record {
  valid = valid;
  expected = rw (← load-of_records txn.id d c same_files) (found ∙ ap {B = Result Err ℕ} ok agrees);
  files =
      rw (← same_files, ← agrees)
        (transactions-write_transaction (record txn { revision = next_revision expected }) c e
          wrote);
}

pub save-Saved :
    (txn : InstallTransaction) (d e : Disk) → save_transaction txn d ≡ (ok tt, e) → Saved txn d e
unfolding save_transaction
save-Saved txn d e h =
    let (u, valid, h1) = reads_inv _ _ d e tt h in
    let (v, controlled, h2) = bind_inv ensure_control _ d e tt h1 in
    let c : Disk = (ensure_control d).1 in
    let (expected, found, h3) = reads_inv _ _ c e tt h2 in
    let (w, agrees, h4) = reads_inv _ _ c e tt h3 in
    let test = guard-ok (txn.revision == expected) _ agrees in
    Saved-from txn d c e expected valid (transactions-ensure_control d) found (ground (arith, test))
      h4

parse-valid :
    (txn : InstallTransaction)
    → validate_transaction txn ≡ ok tt
    → parse_transaction_id txn.id ≡ ok tt
unfolding validate_transaction
parse-valid txn h = ground arith

valid_next :
    (txn : InstallTransaction) (n : ℕ)
    → validate_transaction txn ≡ ok tt
    → validate_transaction (record txn { revision = n }) ≡ ok tt
unfolding validate_transaction
valid_next txn n h = h

load_file-written :
    (txn : InstallTransaction) (name : Bytes)
    → validate_transaction txn ≡ ok tt
    → load_file (some (record { name = name; directory = false; content = some txn })) ≡ ok txn
unfolding load_file decode_transaction
load_file-written txn name h = rw h refl

load-Saved :
    (txn : InstallTransaction) (d e : Disk)
    → Saved txn d e
    → load_transaction txn.id e ≡ ok (record txn { revision = next_revision txn.revision })
unfolding load_transaction
load-Saved txn d e s =
    let next : InstallTransaction = record txn { revision = next_revision txn.revision } in
    let name : Bytes = transaction_file_name txn.id in
    let file : TransactionFile = record { name = name; directory = false; content = some next } in
    ap (λ fs. bind_result (parse_transaction_id txn.id) (λ _. load_file (find_file name fs)))
      s.files
    ∙ ap (λ r. bind_result r (λ _. load_file (find_file name (put_file file d.transactions))))
        (parse-valid txn s.valid)
    ∙ ap load_file (find_file-put_file_self file d.transactions)
    ∙ load_file-written next name (valid_next txn (next_revision txn.revision) s.valid)

load_others :
    (txn : InstallTransaction) (d e : Disk)
    → Saved txn d e
    → (other : Bytes) → txn.id ≢ other
    → load_transaction other e ≡ load_transaction other d
unfolding load_transaction
load_others txn d e s other differ = rw s.files (
    ap (λ o. bind_result (parse_transaction_id other) (λ _. load_file o))
      (find_file-put_file_other (transaction_file_name other) _ d.transactions
        (file_names_differ txn.id other differ)))

-- A save that succeeds is read back with the next revision, and every other record as before; the
-- revision that was saved is the one that was on disk, or 0 where there was no record. Revisions have
-- 64 bits: the next one is taken modulo 2 ^ 64.
pub load-save :
    (txn : InstallTransaction) (d e : Disk)
    → save_transaction txn d ≡ (ok tt, e)
    → (load_transaction txn.id e ≡ ok (record txn { revision = (txn.revision + 1) % 2 ^ 64 }))
      × ((other : Bytes) → txn.id ≢ other → load_transaction other e ≡ load_transaction other d)
      × (expected_revision (load_transaction txn.id d) ≡ ok txn.revision)
unfolding next_revision
load-save txn d e h =
    let s = save-Saved txn d e h in (load-Saved txn d e s, load_others txn d e s, s.expected)
