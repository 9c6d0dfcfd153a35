-- ===== src/Examples/Disks.antt =====
-- The statements on stored records, collection, recovery and the environment at sample disks.
use yorva.Prelude.{
  ℕ, ◌+◌, true, false, ok, refl, some, ◌≡◌, ◌≢◌, inl, List, [], ◌∷◌, Bytes, bytes, Result,
}
use yorva.Install.Types.{complete}
use yorva.Install.Environment.{
  ObservedEnvironment, EnvironmentPolicy, compute_environment_plan, plan_observation, apply_plan,
}
use yorva.Install.Environment.Plan.{foreign, plan_completes, plan_settles, plan_keeps_foreign}
use yorva.Install.Disk.{Disk}
use yorva.Install.Store.{load_transaction, save_transaction, expected_revision}
use yorva.Install.Store.Saved.{load-save}
use yorva.Install.Gc.Retention.{Area, tree_at, load_valid_transactions}
use yorva.Install.Gc.Collect.{collect}
use yorva.Install.Gc.Retained.{open_generation, collect-Retained}
use yorva.Install.Gc.Pointer.{read_active-collect}
use yorva.Install.Seal.{read_active}
use yorva.Install.Manager.Activate.{active_record_of}
use yorva.Install.Recover.{recover_with}
use yorva.Install.Recover.Pointer.{PointerHistory, recover-PointerHistory}
use yorva.Prelude.{none}
use yorva.Install.Disk.{find}
use yorva.Install.Seal.{verify_sealed_tree}
use yorva.Install.Sealing.{Digests, SealInput, SealResult, seal_generation}
use yorva.Install.Sealing.New.{seal_input}
use yorva.Install.Sealing.Verified.{verify-seal_generation}
use yorva.Examples.Samples.{
  building, digest_m, digest_g, created, sealed, gen_id, disk_with, sealed_tree, platform,
}

abbrev new_disk : Disk
new_disk = record (disk_with created []) { transactions = [] }

load-save_example :
    (load_transaction created.id (save_transaction created new_disk).1
      ≡ ok (record created { revision = 1 }))
    × ((other : Bytes)
        → created.id ≢ other
        → load_transaction other (save_transaction created new_disk).1
          ≡ load_transaction other new_disk)
    × (expected_revision (load_transaction created.id new_disk) ≡ ok 0)
unfolding save_transaction yorva.Install.Disk.◌>>=◌ yorva.Install.Disk.reads
    yorva.Install.Validate.validate_transaction yorva.Install.Ids.parse_transaction_id
    yorva.Prelude.has_prefix yorva.Install.Ids.all_in_alphabet yorva.Prelude.contains_byte
    yorva.Install.Ids.parse_generation_id yorva.Install.Paths.validate_staging_rel
    yorva.Prelude.same yorva.Install.Paths.validate_generation_rel yorva.Install.Disk.write
    load_transaction
load-save_example = load-save created new_disk (save_transaction created new_disk).1 refl

abbrev sealed_disk : Disk
sealed_disk = disk_with sealed ((gen_id, sealed_tree) ∷ [])

collect-Retained_example :
    tree_at (Area.generations, gen_id) (collect sealed_disk).1
    ≡ tree_at (Area.generations, gen_id) sealed_disk
unfolding load_valid_transactions yorva.Install.Store.inspect_transactions yorva.Prelude.has_prefix
    yorva.Install.Ids.occupies_reserved_txn_name yorva.Install.Ids.parse_transaction_id
    yorva.Prelude.same yorva.Install.Ids.all_in_alphabet yorva.Prelude.contains_byte
    yorva.Install.Ids.transaction_file_name yorva.Install.Validate.validate_transaction
    yorva.Install.Ids.parse_generation_id yorva.Install.Paths.validate_staging_rel
    yorva.Install.Paths.validate_generation_rel yorva.Install.Transaction.view
collect-Retained_example =
    collect-Retained (Area.generations, gen_id) sealed_disk (open_generation sealed (inl refl) refl)

recover-PointerHistory_example : PointerHistory sealed_disk (recover_with (ok tt) sealed_disk).1
recover-PointerHistory_example = recover-PointerHistory (ok tt) sealed_disk

abbrev policy : EnvironmentPolicy
policy = record {
  hermes_home = bytes "L/hermes";
  desired_bin = bytes "L/hermes/new";
  removable_bins = bytes "L/hermes/old" ∷ [];
  allow_remove_stale = true;
}

abbrev before : ObservedEnvironment
before = record {
  hermes_home = [];
  path_entries = bytes "W" ∷ bytes "L/hermes/old" ∷ bytes "L/hermes/new" ∷ [];
}

abbrev after : ObservedEnvironment
after = apply_plan platform (compute_environment_plan platform policy before) before

plan_completes_example :
    complete (plan_observation platform (compute_environment_plan platform policy before) after)
    ≡ true
plan_completes_example = plan_completes platform policy before

plan_settles_example :
    ((compute_environment_plan platform policy after).set_hermes_home ≡ false)
    × ((compute_environment_plan platform policy after).path_changed ≡ false)
    × ((compute_environment_plan platform policy after).path_entries ≡ after.path_entries)
unfolding compute_environment_plan yorva.Install.Environment.is_removable_bin
    yorva.Install.Environment.same_env_path yorva.Prelude.same yorva.Prelude.has_prefix
plan_settles_example = plan_settles platform policy before refl

plan_keeps_foreign_example :
    foreign platform policy after.path_entries ≡ foreign platform policy before.path_entries
plan_keeps_foreign_example = plan_keeps_foreign platform policy before

abbrev active_disk : Disk
active_disk = record sealed_disk {
  active = some (record { plain = true; content = some (active_record_of sealed 7) });
}

read_active-collect_example : read_active (collect active_disk).1 ≡ read_active active_disk
unfolding read_active yorva.Install.Seal.load_active yorva.Install.Validate.validate_active_record
    active_record_of yorva.Install.Ids.parse_generation_id yorva.Prelude.has_prefix
    yorva.Install.Ids.all_in_alphabet yorva.Prelude.contains_byte
    yorva.Install.Ids.parse_transaction_id yorva.Install.Paths.validate_generation_rel
    yorva.Prelude.same yorva.Install.Seal.verify_published_generation
    yorva.Install.Seal.load_published_seal yorva.Install.Disk.find yorva.Install.Types.is_valid
read_active-collect_example = read_active-collect active_disk refl

abbrev digests : Digests
digests = record {
  manifest_sha = λ m. digest_m;
  generation_sha = λ rec. digest_g;
  candidate_entry = λ rec. record { path = bytes "candidate.json"; size = 9; sha256 = digest_m };
}

abbrev unsealed_disk : Disk
unsealed_disk =
    disk_with building ((gen_id, record sealed_tree { generation = none; manifest = none }) ∷ [])

abbrev sealing : SealInput
sealing = seal_input building 7

abbrev seal : SealResult
seal = record {
  manifest_sha256 = digest_m;
  seal_sha256 = digest_g;
  lineage_id = bytes "l";
  sealed_at = 7;
}

verify-seal_generation_example :
    verify_sealed_tree
      (seal_generation digests (bytes "l") sealing unsealed_disk).1
      (find gen_id (seal_generation digests (bytes "l") sealing unsealed_disk).1.generations)
      gen_id
      digest_m
      digest_g
    ≡ ok tt
unfolding seal_generation yorva.Install.Disk.◌>>=◌ yorva.Install.Disk.reads
    yorva.Install.Paths.validate_generation_rel yorva.Prelude.has_prefix
    yorva.Install.Ids.all_in_alphabet yorva.Prelude.contains_byte yorva.Prelude.same
    yorva.Install.Ids.parse_transaction_id yorva.Install.Seal.reject_reparse find
    yorva.Install.Seal.walk_seal_manifest yorva.Install.Disk.write yorva.Install.Disk.pure
    yorva.Install.Seal.manifests_equal
verify-seal_generation_example =
    verify-seal_generation digests (bytes "l") sealing unsealed_disk
      (seal_generation digests (bytes "l") sealing unsealed_disk).1 seal refl
