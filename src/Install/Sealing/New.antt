-- ===== src/Install/Sealing/New.antt =====
-- Manager.SealNew (manager.go).
use yorva.Prelude.{
  ℕ, Bool, false, not, ◌&&◌, Option, none, some, Bytes, bytes, same, if◌then◌else◌, ◌==◌, Result,
  ok, err, guard,
}
use yorva.Install.Types.{TransactionState, Code, state_eq}
use yorva.Install.Records.{Err, invalid_record, InstallTransaction, CandidateRecord}
use yorva.Install.Disk.{Tree, M, pure, raise, reads, ◌>>=◌, ◌>>◌, find}
use yorva.Install.Store.{load_transaction}
use yorva.Install.Observe.{read_candidate_record}
use yorva.Install.Manager.Persist.{persist, fail, now, outcome}
use yorva.Install.Sealing.{
  Digests, SealInput, SealResult, seal_generation, create_fresh_generation_candidate,
}

-- What builds a candidate and what validates it.
pub record Builder : Type 0 where
  pub build : Bytes → M (Unit {0})
  pub check : Bytes → Bytes → M (Unit {0})

abbrev is_created : TransactionState → Bool
is_created state = state_eq state TransactionState.created

-- The record is saved, or read where it was saved before.
unfoldable pub begin_new : InstallTransaction → M InstallTransaction
begin_new txn =
    if txn.revision == 0
    then persist txn
    else reads (load_transaction txn.id) >>= λ loaded.
        reads (λ d. guard (is_created loaded.state) invalid_record) >> pure loaded

unfoldable pub or_fail :
    InstallTransaction → Code → Result Err (Unit {0}) → M InstallTransaction → M InstallTransaction
or_fail txn code (ok u) rest = rest
or_fail txn code (err e) rest = fail txn code

candidate_fits : Option CandidateRecord → InstallTransaction → Bool
candidate_fits none txn = false
candidate_fits (some c) txn =
    same c.transaction_id txn.id
    && same c.generation_id txn.generation_id
    && same c.runtime_kind txn.runtime_kind

candidate_of : Option Tree → Option CandidateRecord
candidate_of none = none
candidate_of (some t) = read_candidate_record t

abbrev pub seal_input : InstallTransaction → ℕ → SealInput
seal_input txn time = record {
  transaction_id = txn.id;
  generation_id = txn.generation_id;
  runtime_kind = txn.runtime_kind;
  source_pin = txn.source_pin;
  expected_version = txn.expected_version;
  generation_relative_path = txn.generation_relative_path;
  created_at = time;
}

-- The transaction that a seal makes of the one that built it.
abbrev pub sealed_by : SealResult → ℕ → InstallTransaction → InstallTransaction
sealed_by sealed time txn = record txn {
  state = TransactionState.sealed;
  step = bytes "sealed";
  manifest_sha256 = sealed.manifest_sha256;
  seal_sha256 = sealed.seal_sha256;
  sealed_at = some time;
  updated_at = time;
  error_code = Code.unset;
}

unfoldable pub persist_sealed : InstallTransaction → Result Err SealResult → M InstallTransaction
persist_sealed txn (err e) = fail txn Code.seal_invalid
persist_sealed txn (ok sealed) = do time ← now; persist (sealed_by sealed time txn)

-- From the candidate's record on.
unfoldable pub seal_built : Digests → Bytes → InstallTransaction → M InstallTransaction
unfolding candidate_fits candidate_of persist_sealed outcome
seal_built digests lineage txn = do
  fits ← reads (λ d. ok (candidate_fits (candidate_of (find txn.generation_id d.generations)) txn))
  time ← now
  if not fits
      then fail txn Code.seal_invalid
      else outcome (seal_generation digests lineage (seal_input txn time)) >>= λ sealed.
          persist_sealed txn sealed

unfoldable pub build_new : Digests → Builder → Bytes → InstallTransaction → M InstallTransaction
unfolding or_fail seal_built outcome
build_new digests builder lineage txn = do
  placed ← outcome (create_fresh_generation_candidate digests txn)
  or_fail txn Code.interrupted placed (do
    built ← outcome (builder.build txn.generation_id)
    or_fail txn Code.interrupted built (do
      checked ← outcome (builder.check txn.generation_id txn.expected_version)
      or_fail txn Code.seal_invalid checked (seal_built digests lineage txn)))

-- Manager.SealNew
unfoldable pub seal_new : Digests → Builder → Bytes → InstallTransaction → M InstallTransaction
unfolding begin_new build_new
seal_new digests builder lineage txn =
    if not (is_created txn.state)
    then raise invalid_record
    else begin_new txn >>= λ begun. now >>= λ time.
        persist (record begun {
          state = TransactionState.building;
          step = bytes "build";
          updated_at = time;
        })
        >>= λ building. build_new digests builder lineage building
