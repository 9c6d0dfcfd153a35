-- ===== src/Examples/Installs.antt =====
-- The statements on the service that installs a Runtime, at sample nodes.
use yorva.Prelude.{
  ℕ, ◌≤◌, pos, Bool, true, false, none, some, refl, ◌≡◌, List, [], ◌∷◌, Bytes, bytes, ok, err,
  Option, All, length, ◌&&◌, Result,
}
use yorva.Install.Types.{TransactionState, Gate}
use yorva.Install.Records.{InstallTransaction}
use yorva.Install.Disk.{Disk}
use yorva.Install.Store.{load_transaction}
use yorva.Operation.Types.{OperationType, TargetType, Status, Operation}
use yorva.Operation.Constraints.{Constraint, is_host_mutation}
use yorva.Operation.Queries.{get_operation, latest_runtime_install, is_install_of}
use yorva.Operation.Table.{update_operation}
use yorva.Operation.Queries.Keyed.{Later, now, changed}
use yorva.Operation.Queries.Latest.{latest_runtime_install_lem}
use yorva.Operation.Clock.{second}
use yorva.Operation.Lists.{list_operations}
use yorva.Operation.Lists.Bounded.{Asks, Shown, list_operations_bound}
use yorva.Events.Broker.{new_broker, subscribe}
use yorva.App.Node.{Settings, Node}
use yorva.App.Preflight.{DiscoveryState}
use yorva.App.Transactions.{Random, load_linked_transaction, persist_created_transaction}
use yorva.App.Transactions.Linked.{persist_created_transaction_lem}
use yorva.App.Project.{project_operation, project_open_installs, cleanup}
use yorva.App.Project.Committed.{project_operation-committed}
use yorva.App.Start.Refusals.{Detected, Fresh, no_operation}
use yorva.App.Start.{start}
use yorva.App.Start.Replay.{Replayed, start-again}
use yorva.App.Start.Closed.{Blocked, start-latches}
use yorva.App.Cancel.{cancel}
use yorva.App.Cancel.Committed.{cancel-committed}
use yorva.App.Stale.{interrupt_stale}
use yorva.App.Stale.Owned.{Outcome, interrupt_stale_lem}
use yorva.Examples.Samples.{created, sealed, txn_id, disk_with}

abbrev report : Constraint → List Constraint → Bytes
report c cs = bytes "constraint failed"

abbrev pub settings : Settings
settings = record {
  rooted = true;
  applier = some (bytes "pin", bytes "0.20.5");
  report = report;
  installs = λ instance. none;
  encode = λ payload. payload.operation_id;
  lock = ok tt;
  now = 7;
}

abbrev pub empty_disk : Disk
empty_disk = record (disk_with created []) { transactions = [] }

abbrev pub fresh_node : Node
fresh_node = record {
  disk = empty_disk;
  rows = [];
  gate = some Gate.ready;
  broker = some (subscribe new_broker);
  workers = [];
}

abbrev fresh : Fresh
fresh = record {
  id = bytes "op_1";
  correlation_id = bytes "cor_1";
  random = record { txn = bytes "``````````````````````"; gen = bytes "aaaaaaaaaaaaaaaaaaaaaa" };
}

abbrev key : Bytes
key = bytes "k1"

abbrev hermes : Bytes
hermes = bytes "hermes"

-- The operation that the first start creates.
abbrev pub installing : Operation
installing = record no_operation {
  id = bytes "op_1";
  operation_type = OperationType.runtime_install;
  target_type = TargetType.runtime_kind;
  target_id = hermes;
  status = Status.pending;
  stage = bytes "preflight";
  idempotency_key = key;
  correlation_id = bytes "cor_1";
  created_at = 7;
  updated_at = 7;
  source_pin = bytes "pin";
  transaction_id = txn_id;
}

abbrev not_there : Detected
not_there = Detected.found DiscoveryState.not_installed

abbrev started_node : Node
started_node = (start settings fresh hermes key not_there fresh_node).1

abbrev pub running : Operation
running = record installing { status = Status.running; started_at = some 7 }

-- The worker has begun since, and the Runtime is found.
abbrev later_node : Node
later_node = record started_node { rows = running ∷ []; workers = [] }

abbrev later_settings : Settings
later_settings = record settings { now = 60 }

went_on : Later report settings.installs started_node.rows later_node.rows
unfolding update_operation yorva.Prelude.same yorva.Operation.Types.status_eq
    yorva.Operation.Status.valid_status_change yorva.Operation.Table.broken
    yorva.Operation.Constraints.breaks start yorva.App.Start.Refusals.reject_install_gate
    yorva.Install.Types.is_invalid yorva.Install.Seal.read_active yorva.Install.Seal.load_active
    yorva.App.Preflight.validate_idempotency_key
    yorva.Operation.Queries.get_operation_by_idempotency_key
    yorva.App.Start.Refusals.reject_active_hermes_mutation
    yorva.Operation.Queries.active_hermes_host_mutation latest_runtime_install
    yorva.App.Preflight.decide_install_preflight persist_created_transaction
    yorva.Install.Store.fail_failable_nonterminals yorva.Install.Store.inspect_transactions
    yorva.Install.Disk.pure yorva.Install.Store.has_nonterminal
    yorva.Install.Transaction.new_created_transaction yorva.Install.Ids.parse_transaction_id
    yorva.Install.Ids.new_closed_id yorva.Prelude.has_prefix yorva.Install.Ids.all_in_alphabet
    yorva.Prelude.contains_byte yorva.Install.Ids.parse_generation_id
    yorva.Install.Paths.validate_staging_rel yorva.Install.Paths.validate_generation_rel
    yorva.Install.Disk.◌>>=◌ yorva.Install.Disk.reads yorva.Install.Disk.write
    yorva.Install.Store.put_file yorva.Install.Ids.transaction_file_name
    yorva.App.Node.persist_create yorva.Operation.Table.create_operation
    yorva.Operation.Table.broken_on_insert yorva.Operation.Constraints.breaks_on_insert
went_on = changed installing running now refl

start-again_example :
    Replayed
      (bytes "op_1")
      key
      later_node
      (start later_settings fresh hermes key (Detected.found DiscoveryState.supported) later_node)
unfolding start yorva.App.Start.Refusals.reject_install_gate yorva.Install.Types.is_invalid
    yorva.Install.Seal.read_active yorva.Install.Seal.load_active
    yorva.App.Preflight.validate_idempotency_key
    yorva.Operation.Queries.get_operation_by_idempotency_key
    yorva.App.Start.Refusals.reject_active_hermes_mutation
    yorva.Operation.Queries.active_hermes_host_mutation latest_runtime_install
    yorva.App.Preflight.decide_install_preflight persist_created_transaction
    yorva.Install.Store.fail_failable_nonterminals yorva.Install.Store.inspect_transactions
    yorva.Install.Disk.pure yorva.Install.Store.has_nonterminal
    yorva.Install.Transaction.new_created_transaction yorva.Install.Ids.parse_transaction_id
    yorva.Install.Ids.new_closed_id yorva.Prelude.has_prefix yorva.Install.Ids.all_in_alphabet
    yorva.Prelude.contains_byte yorva.Install.Ids.parse_generation_id
    yorva.Install.Paths.validate_staging_rel yorva.Prelude.same
    yorva.Install.Paths.validate_generation_rel yorva.Install.Disk.◌>>=◌ yorva.Install.Disk.reads
    yorva.Install.Disk.write yorva.Install.Store.put_file yorva.Install.Ids.transaction_file_name
    yorva.App.Node.persist_create yorva.Operation.Table.create_operation
    yorva.Operation.Table.broken_on_insert yorva.Operation.Constraints.breaks_on_insert
start-again_example =
    start-again settings later_settings fresh fresh hermes key not_there
      (Detected.found DiscoveryState.supported) fresh_node started_node later_node
      (record { operation = installing; created = true }) refl refl went_on refl

abbrev broken_node : Node
broken_node = record fresh_node {
  disk = record empty_disk { active = some (record { plain = true; content = none }) };
}

-- The pointer is there again, and the gate is as the first start left it.
abbrev repaired_node : Node
repaired_node = record fresh_node { gate = some Gate.blocked_unsafe }

start-latches_example :
    Blocked broken_node (start settings fresh hermes key not_there broken_node)
    × Blocked repaired_node (start settings fresh hermes (bytes "k2") not_there repaired_node)
unfolding yorva.Install.Types.is_invalid yorva.Install.Seal.read_active
    yorva.Install.Seal.load_active start yorva.App.Start.Refusals.reject_install_gate
start-latches_example =
    start-latches settings fresh fresh hermes hermes key (bytes "k2") not_there not_there
      broken_node repaired_node Gate.ready refl refl refl refl

abbrev pub committed_node : Node
committed_node = record fresh_node {
  disk = disk_with (record sealed { state = TransactionState.committed; committed_at = some 7 }) [];
  rows = record installing { status = Status.running; started_at = some 7 } ∷ [];
}

project_operation-committed_example :
    ((project_operation settings running committed_node).0.status ≡ Status.succeeded)
    × (((project_operation settings running committed_node).0.stage ≡ cleanup)
        × (project_operation settings
              (project_operation settings running committed_node).0
              (project_operation settings running committed_node).1
            ≡ project_operation settings running committed_node))
unfolding load_linked_transaction load_transaction yorva.Install.Ids.parse_transaction_id
    yorva.Prelude.has_prefix yorva.Install.Ids.all_in_alphabet yorva.Prelude.contains_byte
    yorva.Prelude.same yorva.Install.Ids.transaction_file_name
    yorva.Install.Validate.validate_transaction yorva.Install.Ids.parse_generation_id
    yorva.Install.Paths.validate_staging_rel yorva.Install.Paths.validate_generation_rel
project_operation-committed_example =
    project_operation-committed settings running committed_node refl

cancel-committed_example :
    (cancel settings (λ node. node) (bytes "op_1") committed_node ≡ (
      ok (project_operation settings running committed_node).0,
      (project_operation settings running committed_node).1,
    ))
    × ((project_operation settings running committed_node).0.status ≡ Status.succeeded)
unfolding get_operation yorva.Prelude.same load_linked_transaction load_transaction
    yorva.Install.Ids.parse_transaction_id yorva.Prelude.has_prefix
    yorva.Install.Ids.all_in_alphabet yorva.Prelude.contains_byte
    yorva.Install.Ids.transaction_file_name yorva.Install.Validate.validate_transaction
    yorva.Install.Ids.parse_generation_id yorva.Install.Paths.validate_staging_rel
    yorva.Install.Paths.validate_generation_rel
cancel-committed_example =
    cancel-committed settings (λ node. node) (bytes "op_1") committed_node running refl refl

interrupt_stale_lem_example :
    Outcome settings started_node.disk
      (project_open_installs settings started_node).rows
      (interrupt_stale settings started_node)
interrupt_stale_lem_example = interrupt_stale_lem settings started_node

abbrev made_txn : InstallTransaction
made_txn = record created { revision = 1; operation_id = bytes "op_1" }

persist_created_transaction_lem_example :
    (made_txn.state ≡ TransactionState.created)
    × ((made_txn.operation_id ≡ bytes "op_1")
        × (load_transaction made_txn.id
              (persist_created_transaction settings fresh.random installing empty_disk).1
            ≡ ok made_txn))
unfolding persist_created_transaction yorva.Install.Types.is_invalid yorva.Install.Seal.read_active
    yorva.Install.Seal.load_active yorva.Install.Store.fail_failable_nonterminals
    yorva.Install.Store.inspect_transactions yorva.Install.Disk.pure
    yorva.Install.Store.has_nonterminal yorva.Install.Transaction.new_created_transaction
    yorva.Install.Ids.parse_transaction_id yorva.Install.Ids.new_closed_id yorva.Prelude.has_prefix
    yorva.Install.Ids.all_in_alphabet yorva.Prelude.contains_byte
    yorva.Install.Ids.parse_generation_id yorva.Install.Paths.validate_staging_rel
    yorva.Prelude.same yorva.App.Transactions.create_after yorva.App.Transactions.create_locked
    yorva.App.Transactions.read_back yorva.App.Transactions.save_new yorva.Install.Disk.find
    yorva.Install.Disk.reads yorva.Install.Disk.write yorva.Install.Disk.◌>>=◌
    yorva.Install.Ids.id_body yorva.Install.Ids.occupies_reserved_txn_name
    yorva.Install.Ids.parse_closed_id yorva.Install.Ids.transaction_file_name
    yorva.Install.Paths.any_dots yorva.Install.Paths.generation_rel yorva.Install.Paths.is_dots
    yorva.Install.Paths.reject_unsafe_rel yorva.Install.Paths.require_exact_rel
    yorva.Install.Paths.split_slash yorva.Install.Paths.staging_rel
    yorva.Install.Paths.validate_generation_rel yorva.Install.Seal.active_observation
    yorva.Install.Seal.decoded yorva.Install.Seal.load_published_seal yorva.Install.Seal.pointer_of
    yorva.Install.Seal.reject_reparse yorva.Install.Seal.seal_files
    yorva.Install.Seal.verify_published_generation yorva.Install.Store.any_view
    yorva.Install.Store.decode_transaction yorva.Install.Store.ensure_control
    yorva.Install.Store.expected_revision yorva.Install.Store.fail_each yorva.Install.Store.fail_one
    yorva.Install.Store.find_file yorva.Install.Store.load_file load_transaction
    yorva.Install.Store.put_file yorva.Install.Store.save_transaction
    yorva.Install.Store.write_transaction yorva.Install.Transaction.view
    yorva.Install.Types.is_valid yorva.Install.Validate.all_hex yorva.Install.Validate.is_blank
    yorva.Install.Validate.valid_sha256_hex yorva.Install.Validate.validate_active_record
    yorva.Install.Validate.validate_before yorva.Install.Validate.validate_transaction
persist_created_transaction_lem_example =
    persist_created_transaction_lem settings fresh.random installing empty_disk
      (persist_created_transaction settings fresh.random installing empty_disk).1 made_txn refl

abbrev later : Operation
later = record installing {
  id = bytes "op_2";
  idempotency_key = bytes "k2";
  created_at = 2000000000;
}

abbrev two_rows : List Operation
two_rows = installing ∷ later ∷ []

latest_runtime_install_lem_example :
    (is_install_of hermes later ≡ true)
    × All
        (λ row. is_install_of hermes row ≡ true → second row.created_at ≤ second later.created_at)
        two_rows
unfolding latest_runtime_install yorva.Operation.Types.target_type_eq yorva.Prelude.same
    yorva.Operation.Clock.sorts_before
latest_runtime_install_lem_example = latest_runtime_install_lem hermes two_rows later refl

list_operations_bound_example :
    (length (later ∷ installing ∷ []) ≤ 50)
    × (All (Asks TargetType.runtime_kind []) (later ∷ installing ∷ [])
        × All
            (λ row. Asks TargetType.runtime_kind [] row → Shown 20 (later ∷ installing ∷ []) row)
            two_rows)
unfolding list_operations yorva.Operation.Types.target_type_eq yorva.Operation.Clock.sorts_before
list_operations_bound_example =
    list_operations_bound TargetType.runtime_kind [] (pos 1000) two_rows (later ∷ installing ∷ [])
      refl
