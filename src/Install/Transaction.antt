-- ===== src/Install/Transaction.antt =====
-- NewCreatedTransaction and InstallTransaction.View (transaction.go). What rand.Read and the clock
-- give is an argument.
use yorva.Prelude.{
  ℕ, ◌==◌, ◌∙◌, ◌≡◌, ◌≢◌, true, false, none, [], Bytes, if◌then◌else◌, length, Result, ok, err,
  arith, Bool-cases, inl, inr,
}
use yorva.Prelude.Results.{◌>>=◌}
use yorva.Install.Types.{TransactionState, Code, BeforeKind, TransactionView}
use yorva.Install.Records.{Err, invalid_record, InstallTransaction}
use yorva.Install.Ids.{
  txn_prefix, gen_prefix, new_closed_id, parse_transaction_id, parse_generation_id,
}
use yorva.Install.Ids.Fresh.{parse-new_closed_id}
use yorva.Install.Paths.{staging_rel, generation_rel}
use yorva.Install.Paths.Contained.{validate-staging_rel, validate-generation_rel}
use yorva.Install.Validate.{is_blank, validate_transaction}

abbrev pub created_with : Bytes → Bytes → Bytes → Bytes → Bytes → Bytes → ℕ → InstallTransaction
created_with txn_id gen_id runtime_kind operation_id source_pin expected_version now = record {
  schema = 1;
  revision = 0;
  id = txn_id;
  runtime_kind = runtime_kind;
  operation_id = operation_id;
  generation_id = gen_id;
  state = TransactionState.created;
  step = [];
  source_pin = source_pin;
  expected_version = expected_version;
  staging_relative_path = staging_rel txn_id;
  generation_relative_path = generation_rel gen_id;
  manifest_sha256 = [];
  seal_sha256 = [];
  active_before_kind = BeforeKind.unset;
  active_before_generation = [];
  active_before_digest = [];
  error_code = Code.unset;
  created_at = now;
  updated_at = now;
  sealed_at = none;
  published_at = none;
  activated_at = none;
  committed_at = none;
}

-- NewCreatedTransaction: the two arrays of random bytes, the four texts and the time.
unfoldable pub new_created_transaction :
    Bytes → Bytes → Bytes → Bytes → Bytes → Bytes → ℕ → Result Err InstallTransaction
unfolding validate_transaction
new_created_transaction txn_random gen_random runtime_kind operation_id source_pin version now =
    let txn_id = new_closed_id txn_prefix txn_random in
    let gen_id = new_closed_id gen_prefix gen_random in
    let txn = created_with txn_id gen_id runtime_kind operation_id source_pin version now in
    validate_transaction txn >>= λ _. ok txn

-- InstallTransaction.View
unfoldable pub view : InstallTransaction → TransactionView
view t = record {
  valid = true;
  occupies_reserved_name = false;
  id = t.id;
  state = t.state;
  generation_id = t.generation_id;
  active_before = t.active_before_generation;
  active_before_digest = t.active_before_digest;
  active_before_kind = t.active_before_kind;
  staging_rel = t.staging_relative_path;
  generation_rel = t.generation_relative_path;
}

accepted :
    (txn_id gen_id runtime_kind operation_id source_pin version : Bytes) (now : ℕ)
    → parse_transaction_id txn_id ≡ ok tt
    → parse_generation_id gen_id ≡ ok tt
    → (now == 0) ≡ false
    → validate_transaction
        (created_with txn_id gen_id runtime_kind operation_id source_pin version now)
      ≡ (if is_blank runtime_kind then err invalid_record else ok tt)
unfolding validate_transaction
accepted txn_id gen_id runtime_kind operation_id source_pin version now pt pg clock =
    let vs = validate-staging_rel txn_id ∙ pt in
    let vg = validate-generation_rel gen_id ∙ pg in
    elim (Bool-cases (is_blank runtime_kind)) [
      | inl blank ↦ rw (pt, pg, blank)
      | inr kind ↦ rw (pt, pg, kind) (rw (vs, vg, clock))
    ]

module _ (txn_random gen_random runtime_kind operation_id source_pin version : Bytes)
    (now : ℕ) where
  -- Given 22 random bytes for each identifier and a clock that does not read zero, a transaction is
  -- created unless its Runtime kind is blank, and then the record is refused: its identifiers and
  -- both of its relative paths always pass the checks.
  pub new_created_transaction_lem :
      length txn_random ≡ 22
      → length gen_random ≡ 22
      → now ≢ 0
      → new_created_transaction txn_random gen_random runtime_kind operation_id source_pin version
          now
        ≡ (if is_blank runtime_kind
            then err invalid_record
            else ok (
                created_with
                  (new_closed_id txn_prefix txn_random)
                  (new_closed_id gen_prefix gen_random)
                  runtime_kind
                  operation_id
                  source_pin
                  version
                  now))
  unfolding new_created_transaction
  new_created_transaction_lem ht hg clock =
      let pt = parse-new_closed_id txn_prefix txn_random ht in
      let pg = parse-new_closed_id gen_prefix gen_random hg in
      let valid =
        accepted (new_closed_id txn_prefix txn_random) (new_closed_id gen_prefix gen_random)
          runtime_kind operation_id source_pin version now (unfold parse_transaction_id in pt)
          (unfold parse_generation_id in pg) (ground arith) in
      rw valid (ground arith)
