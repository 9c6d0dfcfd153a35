-- ===== src/Examples/Samples.antt =====
-- Sample identifiers, records and disks.
use yorva.Prelude.{true, false, some, none, List, [], ◌∷◌, ◌++◌, Bytes, bytes}
use yorva.Install.Types.{TransactionState, ActiveClass, ActivePointer}
use yorva.Install.Records.{InstallTransaction, CandidateRecord}
use yorva.Install.Transaction.{created_with}
use yorva.Install.Environment.{Platform}
use yorva.Install.Disk.{Disk, Tree, TransactionFile}

abbrev pub txn_id : Bytes
txn_id = bytes "txn_aaaaaaaaaaaaaaaaaaaaaa"

abbrev pub gen_id : Bytes
gen_id = bytes "gen_bbbbbbbbbbbbbbbbbbbbbb"

abbrev pub digest_m : Bytes
digest_m = bytes "aaaaaaaaaaaaaaaaaaaaaaaaaaaaaaaaaaaaaaaaaaaaaaaaaaaaaaaaaaaaaaaa"

abbrev pub digest_g : Bytes
digest_g = bytes "bbbbbbbbbbbbbbbbbbbbbbbbbbbbbbbbbbbbbbbbbbbbbbbbbbbbbbbbbbbbbbbb"

abbrev pub created : InstallTransaction
created = created_with txn_id gen_id (bytes "hermes") (bytes "op") (bytes "pin") (bytes "0.20.5") 7

abbrev pub building : InstallTransaction
building = record created { state = TransactionState.building; revision = 2 }

abbrev pub sealed : InstallTransaction
sealed = record created {
  state = TransactionState.sealed;
  revision = 3;
  manifest_sha256 = digest_m;
  seal_sha256 = digest_g;
}

abbrev pub candidate : CandidateRecord
candidate = record {
  schema = 1;
  transaction_id = txn_id;
  generation_id = gen_id;
  runtime_kind = bytes "hermes";
  created_at = 7;
}

abbrev pub sealed_tree : Tree
sealed_tree = record {
  directory = true;
  reparse = false;
  subdirectories = true;
  generation = some (record {
    content = some (record {
      schema = 1;
      lineage_id = bytes "l";
      transaction_id = txn_id;
      generation_id = gen_id;
      runtime_kind = bytes "hermes";
      source_pin = bytes "pin";
      expected_version = bytes "0.20.5";
      generation_relative_path = bytes "generations/gen_bbbbbbbbbbbbbbbbbbbbbb";
      manifest_sha256 = digest_m;
      created_at = 7;
      sealed_at = 7;
    });
    sha = digest_g;
  });
  manifest = some (record { content = some (record { schema = 1; entries = [] }); sha = digest_m });
  candidate = some candidate;
  payload = some [];
}

abbrev pub platform : Platform
platform = record {
  clean = λ p. p;
  local_app_data = bytes "L";
  root = bytes "L/hermes";
  bin_of = λ id. bytes "L/hermes/generations/" ++ id;
}

abbrev pub file_of : InstallTransaction → TransactionFile
file_of txn = record { name = txn.id ++ bytes ".json"; directory = false; content = some txn }

-- One record, one generation, no pointer.
abbrev pub disk_with : InstallTransaction → List (Bytes × Tree) → Disk
disk_with txn generations = record {
  platform = platform;
  clock = 9;
  fates = [];
  reparse = false;
  transactions = file_of txn ∷ [];
  active = none;
  staging = [];
  generations = generations;
  failed = [];
  other_directories = [];
  environment = some (record { hermes_home = []; path_entries = bytes "W" ∷ [] });
}

abbrev pub no_pointer : ActivePointer
no_pointer = record {
  class = ActiveClass.missing;
  present = false;
  valid = false;
  generation_id = [];
  seal_sha256 = [];
  manifest_sha256 = [];
}

abbrev pub pointer_there : ActivePointer
pointer_there = record {
  class = ActiveClass.valid;
  present = true;
  valid = true;
  generation_id = gen_id;
  seal_sha256 = digest_g;
  manifest_sha256 = digest_m;
}
