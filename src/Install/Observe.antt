-- ===== src/Install/Observe.antt =====
-- observe.go: the observation on which recovery decides, and environment.go: the policy for the
-- environment.
use yorva.Prelude.{
  Bool, true, false, not, ◌&&◌, ◌||◌, Option, none, some, List, [], ◌∷◌, ◌++◌, Bytes, same,
  is_empty, if◌then◌else◌, ◌==◌, Result, ok, err, is_ok,
}
use yorva.Prelude.Results.{◌>>◌}
use yorva.Install.Types.{
  TransactionState, nonterminal, BeforeKind, TransactionView, TreeObservation, ActivePointer,
  is_valid, EnvironmentObservation, Observation,
}
use yorva.Install.Records.{
  Err, InstallTransaction, ActiveRecord, ManifestEntry, CandidateRecord, GenerationRecord,
}
use yorva.Install.Ids.{parse_generation_id, parse_transaction_id}
use yorva.Install.Paths.{dir_generations, dir_staging}
use yorva.Install.Environment.{
  Platform, ObservedEnvironment, EnvironmentPolicy, compute_environment_plan, plan_observation,
}
use yorva.Install.Disk.{Disk, Tree, find}
use yorva.Install.Store.{load_transaction, inspect_transactions, has_committed}
use yorva.Install.Seal.{verify_sealed_tree, read_active, load_active, reject_reparse}

-- TransactionView{}
abbrev pub no_view : TransactionView
no_view = record {
  valid = false;
  occupies_reserved_name = false;
  id = [];
  state = TransactionState.unset;
  generation_id = [];
  active_before = [];
  active_before_digest = [];
  active_before_kind = BeforeKind.unset;
  staging_rel = [];
  generation_rel = [];
}

-- The first loop of primaryTxn.
unfoldable pub open_views : List TransactionView → List TransactionView
open_views [] = []
open_views (v ∷ vs) =
    let rest = open_views vs in if v.valid && nonterminal v.state then v ∷ rest else rest

-- The second loop of primaryTxn.
unfoldable pub view_of_generation : Bytes → List TransactionView → TransactionView
view_of_generation generation_id [] = no_view
view_of_generation generation_id (v ∷ vs) =
    if v.valid && same v.generation_id generation_id then v else view_of_generation generation_id vs

unfoldable pub primary_among :
    List TransactionView → List TransactionView → ActivePointer → TransactionView
unfolding view_of_generation
primary_among (v ∷ []) views active = v
primary_among _ views active =
    if is_valid active then view_of_generation active.generation_id views else no_view

-- primaryTxn
unfoldable pub primary_txn : List TransactionView → ActivePointer → TransactionView
unfolding primary_among open_views
primary_txn views active = primary_among (open_views views) views active

-- TreeObservation{}
abbrev pub no_tree : TreeObservation
no_tree = record {
  present = false;
  empty = false;
  is_sealed = false;
  lineage_match = false;
  lineage_id = [];
}

no_entries : Option (List ManifestEntry) → Bool
no_entries (some []) = true
no_entries _ = false

is_none : {A : Type 0} → Option A → Bool
is_none none = true
is_none (some a) = false

-- dirEmpty
unfoldable pub dir_empty : Tree → Bool
unfolding no_entries is_none
dir_empty t =
    not t.subdirectories && is_none t.generation && is_none t.manifest && no_entries t.payload

named : Option GenerationRecord → Option GenerationRecord
named none = none
named (some rec) = if is_empty rec.generation_id then none else some rec

-- readGenerationFile
unfoldable pub read_generation_file : Tree → Option GenerationRecord
unfolding named
read_generation_file t = elim t.generation [ none ↦ none | some file ↦ named file.content ]

checked_candidate : Option CandidateRecord → Option CandidateRecord
checked_candidate none = none
checked_candidate (some rec) =
    if rec.schema == 1
      && is_ok (parse_transaction_id rec.transaction_id)
      && is_ok (parse_generation_id rec.generation_id)
      && not (is_empty rec.runtime_kind)
      && not (rec.created_at == 0)
    then some rec
    else none

-- readCandidateRecord
unfoldable pub read_candidate_record : Tree → Option CandidateRecord
unfolding checked_candidate
read_candidate_record t = checked_candidate t.candidate

-- The lineage that observeTree reads off the files of a tree.
by_candidate : Option CandidateRecord → InstallTransaction → TreeObservation → TreeObservation
by_candidate none txn obs = obs
by_candidate (some rec) txn obs = record obs {
  lineage_id = rec.generation_id;
  lineage_match = same rec.generation_id txn.generation_id && same rec.transaction_id txn.id;
}

by_generation :
    Option GenerationRecord
    → Option CandidateRecord
    → InstallTransaction
    → TreeObservation
    → TreeObservation
unfolding by_candidate
by_generation none candidate txn obs = by_candidate candidate txn obs
by_generation (some rec) candidate txn obs = record obs {
  lineage_id = rec.generation_id;
  lineage_match = same rec.generation_id txn.generation_id;
}

observe_directory : Disk → Tree → InstallTransaction → TreeObservation
unfolding by_generation read_generation_file read_candidate_record
observe_directory d t txn =
    let obs = by_generation (read_generation_file t) (read_candidate_record t) txn (record {
      present = true;
      empty = dir_empty t;
      is_sealed = false;
      lineage_match = false;
      lineage_id = [];
    }) in
    if not (is_empty txn.manifest_sha256)
      && not (is_empty txn.seal_sha256)
      && is_ok (verify_sealed_tree d (some t) txn.generation_id txn.manifest_sha256 txn.seal_sha256)
    then record obs { is_sealed = true; lineage_match = true; lineage_id = txn.generation_id }
    else obs

-- observeTree
unfoldable pub observe_tree : Disk → Option Tree → InstallTransaction → TreeObservation
unfolding observe_directory
observe_tree d none txn = no_tree
observe_tree d (some t) txn =
    if not (is_ok (reject_reparse d (some t))) || not t.directory
    then record no_tree { present = true }
    else observe_directory d t txn

-- Store.RemovableBins: the bin directories of the other generations.
unfoldable pub removable_bins : Platform → Bytes → List (Bytes × Tree) → List Bytes
removable_bins platform active [] = []
removable_bins platform active ((name, t) ∷ rest) =
    let bins = removable_bins platform active rest in
    if not t.directory || not (is_ok (parse_generation_id name)) || same name active
    then bins
    else platform.bin_of name ∷ bins

-- PolicyFromActive
unfoldable pub policy_from_active : Disk → ActiveRecord → Bool → Result Err EnvironmentPolicy
policy_from_active d rec allow_stale = do
  parse_generation_id rec.generation_id
  verify_sealed_tree d (find rec.generation_id d.generations) rec.generation_id rec.manifest_sha256
      rec.seal_sha256
  ok (record {
    hermes_home = d.platform.root;
    desired_bin = d.platform.bin_of rec.generation_id;
    removable_bins = removable_bins d.platform rec.generation_id d.generations;
    allow_remove_stale = allow_stale;
  })

abbrev pub no_environment : EnvironmentObservation
no_environment = record { hermes_home_ok = false; path_ok = false }

planned :
    Platform → Result Err EnvironmentPolicy → Option ObservedEnvironment → EnvironmentObservation
planned platform (ok policy) (some observed) =
    plan_observation platform (compute_environment_plan platform policy observed) observed
planned platform _ _ = no_environment

environment_of : Disk → Result Err ActiveRecord → EnvironmentObservation
unfolding planned
environment_of d (err e) = no_environment
environment_of d (ok rec) =
    planned d.platform (policy_from_active d rec (has_committed d)) d.environment

-- observeEnvironment, for the record that LoadActive gives
unfoldable pub observe_environment : Disk → EnvironmentObservation
unfolding environment_of
observe_environment d = environment_of d (load_active d)

knows : (TransactionView → Bytes) → Bytes → List TransactionView → Bool
knows field name [] = false
knows field name (v ∷ vs) = v.valid && same (field v) name || knows field name vs

unknown_in :
    Bytes → (TransactionView → Bytes) → List TransactionView → List (Bytes × Tree) → List Bytes
unfolding knows
unknown_in dir field views [] = []
unknown_in dir field views ((name, t) ∷ rest) =
    let others = unknown_in dir field views rest in
    if not t.directory || knows field name views then others else (dir ++ b'/' ∷ name) ∷ others

-- scanUnknownDirectories, in the order of the listings: only whether there is one is used
unfoldable pub scan_unknown_directories : Disk → List TransactionView → List Bytes
unfolding unknown_in
scan_unknown_directories d views =
    d.other_directories
    ++ (unknown_in dir_generations (λ v. v.generation_id) views d.generations
        ++ unknown_in dir_staging (λ v. v.id) views d.staging)

trees_of : Disk → Bool → Result Err InstallTransaction → TreeObservation × TreeObservation
trees_of d true (ok txn) = (
  observe_tree d (find txn.id d.staging) txn,
  observe_tree d (find txn.generation_id d.generations) txn,
)
trees_of d _ _ = (no_tree, no_tree)

-- Observe
unfoldable pub observe : Disk → Observation
unfolding trees_of
observe d =
    let views = inspect_transactions d in
    let active = read_active d in
    let primary = primary_txn views active in
    let (staging, generation) = trees_of d primary.valid (load_transaction primary.id d) in
    record {
      transactions = views;
      staging = staging;
      generation = generation;
      unknown_directories = scan_unknown_directories d views;
      reserved_id_collision = false;
      active = active;
      environment = observe_environment d;
    }
