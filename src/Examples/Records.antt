-- ===== src/Examples/Records.antt =====
-- The statements on identifiers, paths, records and pointers at sample inputs.
use yorva.Prelude.{true, ok, err, refl, ◌≡◌, Bytes, bytes, inl, if◌then◌else◌, is_ok, ◌||◌, arith}
use yorva.Install.Types.{BeforeKind, is_missing, is_invalid, is_valid}
use yorva.Install.Records.{invalid_record, InstallTransaction}
use yorva.Install.Ids.{
  parse_closed_id, new_closed_id, txn_prefix, gen_prefix, parse_generation_id, parse_transaction_id,
}
use yorva.Install.Ids.Fresh.{parse-new_closed_id}
use yorva.Install.Paths.{validate_generation_rel, generation_rel, validate_staging_rel, staging_rel}
use yorva.Install.Paths.Contained.{validate-generation_rel, validate-staging_rel}
use yorva.Install.Validate.{is_blank}
use yorva.Install.Transaction.{
  new_created_transaction, new_created_transaction_lem, created_with, view,
}
use yorva.Install.Pointer.{cas_allows_activate, pointer_names_txn, snapshot_active_before}
use yorva.Install.Pointer.Swap.{cas-eq-expected_predecessor, cas-snapshot}
use yorva.Install.Decide.Outcome.{expected_predecessor}
use yorva.Examples.Samples.{sealed, gen_id, txn_id, no_pointer, pointer_there}

abbrev random : Bytes
random = bytes "0123456789ABCDEFGHIJKL"

parse-new_closed_id_example : parse_closed_id (new_closed_id txn_prefix random) txn_prefix ≡ ok tt
parse-new_closed_id_example = parse-new_closed_id txn_prefix random refl

validate-generation_rel_example :
    validate_generation_rel (generation_rel gen_id) gen_id ≡ parse_generation_id gen_id
validate-generation_rel_example = validate-generation_rel gen_id

validate-staging_rel_example :
    validate_staging_rel (staging_rel txn_id) txn_id ≡ parse_transaction_id txn_id
validate-staging_rel_example = validate-staging_rel txn_id

new_created_transaction_lem_example :
    new_created_transaction random random (bytes "hermes") (bytes "op") (bytes "pin") (bytes "1") 7
    ≡ (if is_blank (bytes "hermes")
        then err invalid_record
        else ok (
            created_with
              (new_closed_id txn_prefix random)
              (new_closed_id gen_prefix random)
              (bytes "hermes")
              (bytes "op")
              (bytes "pin")
              (bytes "1")
              7))
new_created_transaction_lem_example =
    new_created_transaction_lem random random (bytes "hermes") (bytes "op") (bytes "pin")
      (bytes "1") 7 refl refl (λ e. ground (arith, e))

cas-eq-expected_predecessor_example :
    is_ok (cas_allows_activate sealed pointer_there)
    ≡ (pointer_names_txn pointer_there sealed || expected_predecessor pointer_there (view sealed))
cas-eq-expected_predecessor_example = cas-eq-expected_predecessor sealed pointer_there

abbrev snapshot_taken : InstallTransaction
snapshot_taken = record sealed { active_before_kind = BeforeKind.absent }

cas-snapshot_example : is_ok (cas_allows_activate snapshot_taken no_pointer) ≡ true
unfolding snapshot_active_before is_missing is_invalid is_valid pointer_names_txn
cas-snapshot_example =
    (cas-snapshot sealed snapshot_taken no_pointer no_pointer refl refl refl).1 (inl (refl, refl))
