-- ===== src/Install/Sealing.antt =====
-- SealGeneration (seal.go), writeCandidateRecord (generation.go) and Manager.SealNew (manager.go),
-- which build a generation in its final place. The digests of the documents, the random identifier
-- and what the build and the validation do are arguments; the context is not cancelled.
pub mod Inverse
pub mod Verified
pub mod New
use yorva.Prelude.{
  ℕ, Bool, true, false, not, ◌&&◌, ◌||◌, Option, none, some, List, [], ◌∷◌, Bytes, bytes, same,
  if◌then◌else◌, ◌==◌, Result, ok, err, guard,
}
use yorva.Install.Types.{TransactionState, Code, state_eq}
use yorva.Install.Records.{
  Err, invalid_record, seal_invalid, reparse_point, generation_occupied, InstallTransaction,
  CandidateRecord, ManifestEntry, ManifestFile, GenerationRecord,
}
use yorva.Install.Ids.{parse_generation_id, parse_transaction_id}
use yorva.Install.Paths.{validate_generation_rel}
use yorva.Install.Disk.{Disk, Stored, Tree, M, pure, raise, reads, ◌>>=◌, ◌>>◌, write, find, remove}
use yorva.Install.Seal.{manifests_equal, reject_reparse, walk_seal_manifest}
use yorva.Install.Store.{load_transaction}
use yorva.Install.Observe.{read_candidate_record}
use yorva.Install.Manager.Persist.{persist, fail, now, outcome}

-- The SHA-256 of the two documents of a seal, and the entry that a candidate's file has in a walk.
pub record Digests : Type 0 where
  pub manifest_sha : ManifestFile → Bytes
  pub generation_sha : GenerationRecord → Bytes
  pub candidate_entry : CandidateRecord → ManifestEntry

-- The tree of a generation, changed.
unfoldable pub change_tree : Bytes → (Tree → Tree) → List (Bytes × Tree) → List (Bytes × Tree)
change_tree id change [] = []
change_tree id change ((name, t) ∷ trees) =
    let others = change_tree id change trees in
    if same name id then (name, change t) ∷ trees else (name, t) ∷ others

unfoldable pub write_tree : Bytes → (Tree → Tree) → M (Unit {0})
unfolding change_tree
write_tree id change = write (λ d. record d { generations = change_tree id change d.generations })

abbrev pub set_manifest : Digests → ManifestFile → Tree → Tree
set_manifest digests m t = record t {
  manifest = some (record { content = some m; sha = digests.manifest_sha m });
}

abbrev pub set_generation : Digests → GenerationRecord → Tree → Tree
set_generation digests rec t = record t {
  generation = some (record { content = some rec; sha = digests.generation_sha rec });
}

-- `_ = os.Remove(manifestPath)`
unfoldable pub remove_manifest : Bytes → M (Unit {0})
unfolding write_tree outcome
remove_manifest id = do
  removed ← outcome (write_tree id (λ t. record t { manifest = none }))
  pure tt

-- removeSealFiles
unfoldable pub remove_seal_files : Bytes → M (Unit {0})
unfolding remove_manifest write_tree outcome
remove_seal_files id = do
  remove_manifest id
  removed ← outcome (write_tree id (λ t. record t { generation = none }))
  pure tt

module _ {A : Type 0} where
  -- An error is returned after a cleanup.
  unfoldable pub cleaned : M (Unit {0}) → Result Err A → M A
  cleaned cleanup (ok a) = pure a
  cleaned cleanup (err e) = cleanup >> raise e

-- A computation whose error is returned after a cleanup.
unfoldable pub or_clean : M (Unit {0}) → M (Unit {0}) → M (Unit {0})
unfolding cleaned outcome
or_clean m cleanup = do r ← outcome m; cleaned cleanup r

pub record SealInput : Type 0 where
  pub transaction_id : Bytes
  pub generation_id : Bytes
  pub runtime_kind : Bytes
  pub source_pin : Bytes
  pub expected_version : Bytes
  pub generation_relative_path : Bytes
  pub created_at : ℕ

pub record SealResult : Type 0 where
  pub manifest_sha256 : Bytes
  pub seal_sha256 : Bytes
  pub lineage_id : Bytes
  pub sealed_at : ℕ

abbrev pub manifest_of : List ManifestEntry → ManifestFile
manifest_of entries = record { schema = 1; entries = entries }

-- The record of the generation, at a time that is not zero.
abbrev pub sealed_record : Digests → SealInput → Bytes → List ManifestEntry → ℕ → GenerationRecord
sealed_record digests input lineage entries time = record {
  schema = 1;
  lineage_id = lineage;
  transaction_id = input.transaction_id;
  generation_id = input.generation_id;
  runtime_kind = input.runtime_kind;
  source_pin = input.source_pin;
  expected_version = input.expected_version;
  generation_relative_path = input.generation_relative_path;
  manifest_sha256 = digests.manifest_sha (manifest_of entries);
  created_at = time;
  sealed_at = time;
}

-- The walk after both files are written has to give the same entries.
unfoldable pub walk_again :
    Bytes → List ManifestEntry → Result Err (List ManifestEntry) → M (Unit {0})
unfolding remove_seal_files
walk_again id entries (err e) = remove_seal_files id >> raise e
walk_again id entries (ok again) =
    if not (manifests_equal entries again)
    then remove_seal_files id >> raise seal_invalid
    else pure tt

-- `in.CreatedAt`, or the clock where that is zero
unfoldable pub seal_time : SealInput → M ℕ
unfolding now
seal_time input = if input.created_at == 0 then now else pure input.created_at

-- The part of SealGeneration from the manifest on.
unfoldable pub write_seal : Digests → Bytes → SealInput → List ManifestEntry → M SealResult
unfolding write_tree or_clean remove_manifest walk_again seal_time outcome
write_seal digests lineage input entries = do
  write_tree input.generation_id (set_manifest digests (manifest_of entries))
  time ← seal_time input
  or_clean
      (do
        reads (λ d. validate_generation_rel input.generation_relative_path input.generation_id)
        write_tree input.generation_id
            (set_generation digests (sealed_record digests input lineage entries time)))
      (remove_manifest input.generation_id)
  again ← outcome (reads (λ d. walk_seal_manifest (find input.generation_id d.generations)))
  walk_again input.generation_id entries again
  pure (record {
    manifest_sha256 = digests.manifest_sha (manifest_of entries);
    seal_sha256 = digests.generation_sha (sealed_record digests input lineage entries time);
    lineage_id = lineage;
    sealed_at = time;
  })

-- SealGeneration of a generation in its final place
unfoldable pub seal_generation : Digests → Bytes → SealInput → M SealResult
unfolding write_seal
seal_generation digests lineage input = do
  reads (λ d. validate_generation_rel input.generation_relative_path input.generation_id)
  reads (λ d. parse_transaction_id input.transaction_id)
  reads (λ d. reject_reparse d (find input.generation_id d.generations))
  entries ← reads (λ d. walk_seal_manifest (find input.generation_id d.generations))
  write_seal digests lineage input entries

-- A directory with nothing in it.
abbrev pub empty_tree : Tree
empty_tree = record {
  directory = true;
  reparse = false;
  subdirectories = false;
  generation = none;
  manifest = none;
  candidate = none;
  payload = some [];
}

-- A new directory has no other file, so that the candidate's is the first of its walk.
unfoldable pub set_candidate : Digests → CandidateRecord → Tree → Tree
set_candidate digests rec t = record t {
  candidate = some rec;
  payload = some (digests.candidate_entry rec ∷ []);
}

-- writeCandidateRecord
unfoldable pub write_candidate_record : Digests → InstallTransaction → M (Unit {0})
unfolding write_tree set_candidate
write_candidate_record digests txn = write_tree txn.generation_id (
    set_candidate digests (record {
      schema = 1;
      transaction_id = txn.id;
      generation_id = txn.generation_id;
      runtime_kind = txn.runtime_kind;
      created_at = txn.created_at;
    }))

-- `os.Remove` or `os.RemoveAll` of the new directory, whose error is ignored
unfoldable pub remove_generation : Bytes → M (Unit {0})
unfolding outcome
remove_generation id = do
  removed ← outcome (write (λ d. record d { generations = remove id d.generations }))
  pure tt

abbrev is_absent : Option Tree → Bool
is_absent none = true
is_absent (some t) = false

-- createFreshGenerationCandidate
unfoldable pub create_fresh_generation_candidate : Digests → InstallTransaction → M (Unit {0})
unfolding or_clean remove_generation write_candidate_record
create_fresh_generation_candidate digests txn = do
  write (λ d. d)
  reads (λ d. guard (not d.reparse) reparse_point)
  reads (λ d. parse_generation_id txn.generation_id)
  reads (λ d. guard (is_absent (find txn.generation_id d.generations)) generation_occupied)
  write (λ d. record d { generations = (txn.generation_id, empty_tree) ∷ d.generations })
  or_clean (reads (λ d. reject_reparse d (find txn.generation_id d.generations)))
      (remove_generation txn.generation_id)
  or_clean (write_candidate_record digests txn) (remove_generation txn.generation_id)
