-- ===== src/Examples/Workers.antt =====
-- The statements on cancellation and on the worker of an installation, at sample nodes.
use yorva.Prelude.{
  ℕ, Bool, same, Option, true, false, none, some, refl, ◌≡◌, List, [], ◌∷◌, Bytes, bytes, ok, err,
}
use yorva.Install.Types.{Gate}
use yorva.Operation.Status.{is_terminal}
use yorva.Operation.Table.{create_operation, update_operation}
use yorva.Operation.Table.Invariant.{Reachable, empty, created, changed, reachable_invariant}
use yorva.Operation.Queries.{get_operation}
use yorva.App.Node.{Node}
use yorva.App.Transactions.{load_linked_transaction}
use yorva.App.Preflight.{DiscoveryState}
use yorva.Operation.Installations.{
  AcceptedInstallation, has_key, find_row, upsert, upsert_accepted_installation,
  get_accepted_installation,
}
use yorva.Operation.Installations.Upserted.{get-upsert_accepted_installation}
use yorva.App.Worker.Codes.{HostError}
use yorva.App.Worker.Postcheck.{ApplyStep, Candidate, Discovery, Host, postcheck_accepted}
use yorva.App.Worker.Failing.{apply_failed, postcheck_failed, fail}
use yorva.App.Worker.{execute}
use yorva.App.Worker.Committed.{Ended, failed_worker-committed}
use yorva.App.Worker.Succeeds.{Succeeded, execute-succeeds}
use yorva.App.Cancel.{any_of}
use yorva.Examples.Installs.{settings, fresh_node, installing, committed_node, running}

abbrev open_node : Node
open_node = record fresh_node { rows = installing ∷ [] }

open_rows : Reachable settings.report settings.installs (installing ∷ [])
unfolding create_operation yorva.Operation.Table.broken_on_insert
    yorva.Operation.Constraints.breaks_on_insert
open_rows = created installing empty refl

running_rows : Reachable settings.report settings.installs committed_node.rows
unfolding create_operation yorva.Operation.Table.broken_on_insert
    yorva.Operation.Constraints.breaks_on_insert update_operation is_terminal same
    yorva.Operation.Status.valid_status_change yorva.Operation.Table.broken
running_rows = changed installing running open_rows refl refl

abbrev disk_full : HostError
disk_full = record {
  deadline_exceeded = false;
  canceled = false;
  message = bytes "RUNTIME_INSTALL_INSUFFICIENT_DISK";
  code = none;
}

failed_worker-committed_example :
    Ended (bytes "op_1") (apply_failed settings (bytes "op_1") disk_full committed_node)
    × (Ended (bytes "op_1") (postcheck_failed settings (bytes "op_1") committed_node)
        × Ended (bytes "op_1") (fail settings (bytes "op_1") (bytes "X") true committed_node))
unfolding get_operation yorva.Prelude.same load_linked_transaction
    yorva.Install.Store.load_transaction yorva.Install.Ids.parse_transaction_id
    yorva.Prelude.has_prefix yorva.Install.Ids.all_in_alphabet yorva.Prelude.contains_byte
    yorva.Install.Ids.transaction_file_name yorva.Install.Validate.validate_transaction
    yorva.Install.Ids.parse_generation_id yorva.Install.Paths.validate_staging_rel
    yorva.Install.Paths.validate_generation_rel
failed_worker-committed_example =
    failed_worker-committed settings (bytes "op_1") committed_node running disk_full (bytes "X")
      true (reachable_invariant running_rows).0 refl refl

abbrev launcher : Candidate
launcher = record { path = bytes "hermes.exe"; version = bytes "0.20.5" }

abbrev discovered : Discovery
discovered = record { state = DiscoveryState.supported; selected = some launcher; detected_at = 6 }

abbrev known : Bytes → Bool
known node = same node (bytes "node_1")

abbrev host : Host
host = record {
  platform_supported = true;
  on_windows = true;
  allow_non_windows = false;
  target_error = none;
  steps =
      ApplyStep.reported (bytes "source.download") []
      ∷ ApplyStep.meanwhile (λ node. record node { gate = some Gate.ready })
      ∷ [];
  apply_error = none;
  detected = some discovered;
  canonical_launcher = bytes "hermes.exe";
  contains_managed_path = λ path. true;
  clean = λ path. path;
  abs = λ path. some path;
  equal_fold = same;
  completer = some known;
  installation_id = some (bytes "aaaa");
  node_id = bytes "node_1";
}

abbrev accepted_launcher : AcceptedInstallation
accepted_launcher = record {
  id = bytes "rtinst_aaaa";
  node_id = bytes "node_1";
  runtime_kind = bytes "hermes";
  install_path = bytes "hermes.exe";
  version = bytes "0.20.5";
  support_state = bytes "SUPPORTED";
  status = bytes "accepted";
  last_detected_at = 6;
  created_at = 7;
  updated_at = 7;
}

execute-succeeds_example :
    Succeeded
      (bytes "op_1")
      (accepted_launcher ∷ [])
      (execute settings host installing (open_node, []))
    × (any_of (bytes "op_1") (execute settings host installing (open_node, [])).0.workers ≡ false)
unfolding postcheck_accepted upsert same
execute-succeeds_example =
    execute-succeeds settings host installing open_node [] (accepted_launcher ∷ [])
      (bytes "pin", bytes "0.20.5") discovered launcher known (bytes "aaaa") refl refl refl refl
      refl ((λ op node st. record { place = st.place; consistent = st.consistent }), tt) refl refl
      refl refl refl refl
      (record {
        place = record { before = []; after = []; parts = refl };
        consistent = (reachable_invariant open_rows).0;
      })
      refl

abbrev upgraded_launcher : AcceptedInstallation
upgraded_launcher = record accepted_launcher {
  id = bytes "rtinst_bbbb";
  version = bytes "0.21.0";
  updated_at = 9;
}

abbrev after_upgrade : AcceptedInstallation
after_upgrade = record accepted_launcher { version = bytes "0.21.0"; updated_at = 9 }

get-upsert_accepted_installation_example :
    (get_accepted_installation
        (bytes "node_1")
        (bytes "hermes")
        (bytes "hermes.exe")
        (after_upgrade ∷ [])
      ≡ ok after_upgrade)
    × ((node kind path : Bytes)
        → has_key node kind path upgraded_launcher ≡ false
        → get_accepted_installation node kind path (after_upgrade ∷ [])
          ≡ get_accepted_installation node kind path (accepted_launcher ∷ []))
unfolding upsert_accepted_installation find_row same
get-upsert_accepted_installation_example =
    get-upsert_accepted_installation known upgraded_launcher (accepted_launcher ∷ [])
      (after_upgrade ∷ []) refl
