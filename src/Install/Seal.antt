-- ===== src/Install/Seal.antt =====
-- verify.go and manifestsEqual (seal.go): the integrity of a generation on disk, and the active
-- pointer as it is read (active_pointer.go).
use yorva.Prelude.{
  Bool, true, false, not, ◌&&◌, ◌||◌, Option, none, some, List, [], ◌∷◌, Bytes, same, if◌then◌else◌,
  ◌==◌, Result, ok, err, guard, is_ok,
}
use yorva.Prelude.Results.{◌>>=◌, ◌>>◌, bind_result}
use yorva.Install.Types.{ActiveClass, ActivePointer, is_valid}
use yorva.Install.Records.{
  Err, io, not_found, invalid_record, seal_invalid, reparse_point, ActiveRecord, ManifestEntry,
  ManifestFile, GenerationRecord,
}
use yorva.Install.Ids.{parse_generation_id}
use yorva.Install.Paths.{validate_generation_rel}
use yorva.Install.Validate.{validate_active_record}
use yorva.Install.Disk.{Disk, Stored, Tree, ActiveFile, find}

unfoldable pub entry_eq : ManifestEntry → ManifestEntry → Bool
entry_eq a b = same a.path b.path && a.size == b.size && same a.sha256 b.sha256

-- manifestsEqual
unfoldable pub manifests_equal : List ManifestEntry → List ManifestEntry → Bool
unfolding entry_eq
manifests_equal [] [] = true
manifests_equal (a ∷ entries) (b ∷ bs) = entry_eq a b && manifests_equal entries bs
manifests_equal _ _ = false

-- The document of a file, `json.Unmarshal` failing where it holds none.
unfoldable pub decoded : {A : Type 0} → Option A → Result Err A
decoded none = err seal_invalid
decoded (some a) = ok a

seal_pair :
    Option (Stored GenerationRecord)
    → Option (Stored ManifestFile)
    → Result Err (Stored GenerationRecord × Stored ManifestFile)
seal_pair (some g) (some m) = ok (g, m)
seal_pair _ _ = err seal_invalid

-- The two files of a seal, if both are there as regular files.
unfoldable pub seal_files : Option Tree → Result Err (Stored GenerationRecord × Stored ManifestFile)
unfolding seal_pair
seal_files none = err seal_invalid
seal_files (some t) = seal_pair t.generation t.manifest

abbrev pub tree_reparse : Option Tree → Bool
tree_reparse none = false
tree_reparse (some t) = t.reparse

-- rejectReparse on the path of a tree
unfoldable pub reject_reparse : Disk → Option Tree → Result Err (Unit {0})
reject_reparse d tree = guard (not (d.reparse || tree_reparse tree)) reparse_point

-- loadPublishedSeal
unfoldable pub load_published_seal :
    Disk → Option Tree → Bytes → Bytes → Bytes → Result Err (GenerationRecord × ManifestFile)
unfolding seal_files decoded reject_reparse
load_published_seal d tree generation_id manifest_sha seal_sha = do
  parse_generation_id generation_id
  reject_reparse d tree
  (g, m) ← seal_files tree
  guard (same m.sha manifest_sha && same g.sha seal_sha) seal_invalid
  rec ← decoded g.content
  guard (same rec.generation_id generation_id && same rec.manifest_sha256 manifest_sha) seal_invalid
  validate_generation_rel rec.generation_relative_path rec.generation_id
  manifest ← decoded m.content
  ok (rec, manifest)

-- VerifyPublishedGeneration
unfoldable pub verify_published_generation :
    Disk → Option Tree → Bytes → Bytes → Bytes → Result Err (Unit {0})
verify_published_generation d tree generation_id manifest_sha seal_sha = do
  sealed ← load_published_seal d tree generation_id manifest_sha seal_sha
  ok tt

unfoldable pub walked : Option (List ManifestEntry) → Result Err (List ManifestEntry)
walked none = err reparse_point
walked (some entries) = ok entries

-- walkSealManifest
unfoldable pub walk_seal_manifest : Option Tree → Result Err (List ManifestEntry)
unfolding walked
walk_seal_manifest none = err io
walk_seal_manifest (some t) = walked t.payload

equal_walk : Result Err (List ManifestEntry) → List ManifestEntry → Bool
equal_walk (ok entries) expected = manifests_equal entries expected
equal_walk (err e) expected = false

-- VerifySealedTree
unfoldable pub verify_sealed_tree :
    Disk → Option Tree → Bytes → Bytes → Bytes → Result Err (Unit {0})
unfolding walk_seal_manifest equal_walk
verify_sealed_tree d tree generation_id manifest_sha seal_sha = do
  (rec, manifest) ← load_published_seal d tree generation_id manifest_sha seal_sha
  guard (manifest.schema == 1) seal_invalid
  guard (equal_walk (walk_seal_manifest tree) manifest.entries) seal_invalid

record_of : Option ActiveRecord → Result Err ActiveRecord
record_of none = err invalid_record
record_of (some rec) = bind_result (validate_active_record rec) (λ _. ok rec)

active_content : Option ActiveFile → Result Err ActiveRecord
unfolding record_of
active_content none = err not_found
active_content (some file) = if not file.plain then err invalid_record else record_of file.content

-- Store.LoadActive
unfoldable pub load_active : Disk → Result Err ActiveRecord
unfolding active_content
load_active d = active_content d.active

invalid_pointer : ActivePointer
invalid_pointer = record {
  class = ActiveClass.invalid;
  present = true;
  valid = false;
  generation_id = [];
  seal_sha256 = [];
  manifest_sha256 = [];
}

missing_pointer : ActivePointer
missing_pointer = record {
  class = ActiveClass.missing;
  present = false;
  valid = false;
  generation_id = [];
  seal_sha256 = [];
  manifest_sha256 = [];
}

-- ActiveRecord.Observation
unfoldable pub active_observation : ActiveRecord → ActivePointer
unfolding invalid_pointer
active_observation r = if not (is_ok (validate_active_record r)) then invalid_pointer else record {
  class = ActiveClass.valid;
  present = true;
  valid = true;
  generation_id = r.generation_id;
  seal_sha256 = r.seal_sha256;
  manifest_sha256 = r.manifest_sha256;
}

unfoldable pub pointer_of : Disk → Result Err ActiveRecord → ActivePointer
unfolding invalid_pointer missing_pointer active_observation
pointer_of d (err not_found) = missing_pointer
pointer_of d (err e) = invalid_pointer
pointer_of d (ok rec) =
    if is_ok (parse_generation_id rec.generation_id)
      && is_ok (
          verify_published_generation d (find rec.generation_id d.generations) rec.generation_id
            rec.manifest_sha256 rec.seal_sha256)
      && is_valid (active_observation rec)
    then active_observation rec
    else invalid_pointer

-- Store.ReadActive
unfoldable pub read_active : Disk → ActivePointer
unfolding pointer_of
read_active d = pointer_of d (load_active d)
