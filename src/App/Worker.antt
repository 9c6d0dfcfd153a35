-- ===== src/App/Worker.antt =====
-- The worker that runs an installation (runtime_install_run.go). The HostApplier, the discovery and
-- filepath are parameters: what they answer is a field of Host. What Apply and other goroutines do to
-- the node while it runs is given as steps between the stages that it reports.
pub mod Codes
pub mod Postcheck
pub mod Failing
pub mod Going
pub mod Committed
pub mod Succeeds
use yorva.Prelude.{
  ℕ, Bool, true, false, not, ◌&&◌, ◌||◌, Option, none, some, List, [], ◌∷◌, ◌++◌, Bytes, bytes,
  same, is_empty, select, if◌then◌else◌, Result, ok, err,
}
use yorva.Operation.Types.{Status, status_eq, Operation}
use yorva.Operation.Status.{is_terminal}
use yorva.Operation.Errors.{OperationError}
use yorva.Operation.Queries.{get_operation}
use yorva.Operation.Table.{Rows}
use yorva.Operation.Installations.{
  AcceptedInstallation, Installations, InstallationError, complete_install_success,
}
use yorva.App.Node.{Settings, Node, emit_operation, status_text, persist_update}
use yorva.App.Preflight.{DiscoveryState}
use yorva.App.Transactions.{expected_version, filesystem_owns_operation}
use yorva.App.Project.{cleanup, project_operation}
use yorva.App.Cancel.{cancelled}
use yorva.App.Worker.Codes.{HostError, install_error_code_or, is_retryable_install}
use yorva.App.Worker.Postcheck.{
  Candidate, Discovery, ApplyStep, Host, is_supported, same_absolute, same_install_path,
  candidate_accepted, postcheck_accepted,
}
use yorva.App.Worker.Failing.{
  failed_with, fail_latest, fail, cancel_latest, owned_latest, projected_or, apply_failed_open,
  apply_failed, postcheck_failed,
}

abbrev pub Site : Type 0
Site = Node × Installations

unfoldable pub at_stage : ℕ → Bytes → Bytes → Operation → Operation
at_stage now stage warning current = record current {
  stage = stage;
  message = if is_empty warning then current.message else warning;
  updated_at = now;
}

unfoldable pub after_report :
    Operation → Operation → Result OperationError (Unit {0}) × Node → Operation × Node
after_report current updated (ok u, node) = (updated, node)
after_report current updated (err e, node) = (current, node)

-- The function `report` of execute: the current operation after it
unfoldable pub report_stage : Settings → Bytes → Bytes → Operation × Node → Operation × Node
unfolding at_stage after_report
report_stage s stage warning (current, node) =
    let next = at_stage s.now stage warning current in
    after_report current next (persist_update s current next node)

unfoldable pub apply_steps : Settings → List ApplyStep → Operation × Node → Operation × Node
unfolding report_stage
apply_steps s [] at = at
apply_steps s (ApplyStep.reported stage warning ∷ steps) at =
    apply_steps s steps (report_stage s stage warning at)
apply_steps s (ApplyStep.meanwhile f ∷ steps) (current, node) =
    apply_steps s steps (current, f node)

unfoldable pub finished : ℕ → Operation → Operation
finished now current = record current {
  status = Status.succeeded;
  completed_at = some now;
  updated_at = now;
}

abbrev pub accepted_by : Settings → Host → Bytes → Bytes → Candidate → ℕ → AcceptedInstallation
accepted_by s h kind random c detected_at = record {
  id = bytes "rtinst_" ++ random;
  node_id = h.node_id;
  runtime_kind = kind;
  install_path = c.path;
  version = c.version;
  support_state = bytes "SUPPORTED";
  status = bytes "accepted";
  last_detected_at = detected_at;
  created_at = s.now;
  updated_at = s.now;
}

unfoldable pub after_completion :
    Settings
    → Bytes
    → Operation
    → Operation
    → Site
    → Result InstallationError (Rows × Installations)
    → Site
unfolding emit_operation fail
after_completion s id current next (node, accepted) (err e) =
    (fail s id (bytes "RUNTIME_INSTALL_POSTCHECK_FAILED") true node, accepted)
after_completion s id current next (node, accepted) (ok (rows, accepted')) = (
  emit_operation s (status_text current.status) next false (record node { rows = rows }),
  accepted',
)

unfoldable pub complete_with :
    Settings
    → Host
    → Operation
    → Candidate
    → ℕ
    → (Bytes → Bool)
    → Option Bytes
    → Operation
    → Site
    → Site
unfolding after_completion finished fail
complete_with s h started c detected_at known none current (node, accepted) =
    (fail s started.id (bytes "RUNTIME_INSTALL_POSTCHECK_FAILED") true node, accepted)
complete_with s h started c detected_at known (some random) current (node, accepted) =
    after_completion s started.id current (finished s.now current) (node, accepted)
      (complete_install_success s.report known current (finished s.now current)
        (accepted_by s h started.target_id random c detected_at) (node.rows, accepted))

unfoldable pub complete :
    Settings → Host → Operation → Candidate → ℕ → Option (Bytes → Bool) → Operation → Site → Site
unfolding complete_with finished
complete s h started c detected_at none current (node, accepted) =
    ((persist_update s current (finished s.now current) node).1, accepted)
complete s h started c detected_at (some known) current site =
    complete_with s h started c detected_at known h.installation_id current site

-- What is done with an accepted discovery. An accepted one has a candidate, so the last clause is
-- never met.
unfoldable pub complete_discovered :
    Settings → Host → Operation → Option Candidate → ℕ → Operation × Node → Installations → Site
unfolding complete report_stage
complete_discovered s h started (some c) detected_at at accepted =
    let (current, node) = report_stage s cleanup [] at in
    complete s h started c detected_at h.completer current (node, accepted)
complete_discovered s h started none detected_at (current, node) accepted = (node, accepted)

unfoldable pub postcheck :
    Settings → Host → Operation → Option Discovery → Operation × Node → Installations → Site
unfolding complete_discovered postcheck_failed postcheck_accepted
postcheck s h started none (current, node) accepted = (postcheck_failed s started.id node, accepted)
postcheck s h started (some d) (current, node) accepted =
    if postcheck_accepted s h d
    then complete_discovered s h started d.selected d.detected_at (current, node) accepted
    else (postcheck_failed s started.id node, accepted)

unfoldable pub after_apply :
    Settings → Host → Operation → Option HostError → Operation × Node → Installations → Site
unfolding apply_failed postcheck report_stage
after_apply s h started (some e) (current, node) accepted =
    (apply_failed s started.id e node, accepted)
after_apply s h started none at accepted =
    postcheck s h started h.detected (report_stage s (bytes "postcheck.discovery") [] at) accepted

unfoldable pub running_from : ℕ → Operation → Operation
running_from now current = record current {
  status = Status.running;
  started_at = some now;
  updated_at = now;
}

unfoldable pub after_running :
    Settings
    → Host
    → Operation
    → Operation
    → Result OperationError (Unit {0}) × Node
    → Installations
    → Site
unfolding after_apply apply_steps
after_running s h started running (err e, node) accepted = (node, accepted)
after_running s h started running (ok u, node) accepted =
    after_apply s h started h.apply_error (apply_steps s h.steps (running, node)) accepted

unfoldable pub run_validated : Settings → Host → Operation → Option HostError → Site → Site
unfolding after_running running_from fail
run_validated s h started (some e) (node, accepted) = (
  fail s started.id (install_error_code_or e (bytes "RUNTIME_INSTALL_TARGET_OCCUPIED")) false node,
  accepted,
)
run_validated s h started none (node, accepted) =
    let running = running_from s.now started in
    after_running s h started running (persist_update s started running node) accepted

unfoldable pub run_with : Settings → Host → Operation → Option (Bytes × Bytes) → Site → Site
unfolding run_validated fail
run_with s h started none site = site
run_with s h started (some applier) (node, accepted) =
    if not h.platform_supported || not h.on_windows && not h.allow_non_windows
    then (fail s started.id (bytes "RUNTIME_INSTALL_PLATFORM_UNSUPPORTED") false node, accepted)
    else run_validated s h started h.target_error (node, accepted)

-- stopWorker; the context and the channel of the worker are left out
unfoldable pub stop_worker : Bytes → Node → Node
stop_worker id node = record node { workers = select (λ w. not (same w id)) node.workers }

-- execute
unfoldable pub execute : Settings → Host → Operation → Site → Site
unfolding run_with stop_worker
execute s h started site =
    let (node, accepted) = run_with s h started s.applier site in
    (stop_worker started.id node, accepted)
