-- ===== src/App/Worker/Postcheck.antt =====
-- What the host and the discovery answer to the worker, and postcheckAccepted (runtime_install_run.go).
use yorva.Prelude.{
  ℕ, Bool, true, false, not, ◌&&◌, ◌||◌, Option, none, some, List, Bytes, same, is_empty,
  if◌then◌else◌,
}
use yorva.App.Node.{Settings, Node}
use yorva.App.Preflight.{DiscoveryState}
use yorva.App.Transactions.{expected_version}
use yorva.App.Worker.Codes.{HostError}

pub record Candidate : Type 0 where
  pub path : Bytes
  pub version : Bytes

pub record Discovery : Type 0 where
  pub state : DiscoveryState
  pub selected : Option Candidate
  pub detected_at : ℕ

-- What happens while Apply runs.
pub data ApplyStep : Type 0 where
  reported : Bytes → Bytes → ApplyStep
  meanwhile : (Node → Node) → ApplyStep

-- `detected`: what Detect returns, or nothing for its error. `completer`: the nodes that the foreign
-- key finds, or nothing for a nil InstallCompleter. `installation_id`: what NewInstallationID returns.
pub record Host : Type 0 where
  pub platform_supported : Bool
  pub on_windows : Bool
  pub allow_non_windows : Bool
  pub target_error : Option HostError
  pub steps : List ApplyStep
  pub apply_error : Option HostError
  pub detected : Option Discovery
  pub canonical_launcher : Bytes
  pub contains_managed_path : Bytes → Bool
  pub clean : Bytes → Bytes
  pub abs : Bytes → Option Bytes
  pub equal_fold : Bytes → Bytes → Bool
  pub completer : Option (Bytes → Bool)
  pub installation_id : Option Bytes
  pub node_id : Bytes

abbrev pub is_supported : DiscoveryState → Bool
is_supported DiscoveryState.supported = true
is_supported _ = false

abbrev pub same_absolute : Host → Option Bytes → Option Bytes → Bool
same_absolute h (some left) (some right) =
    if h.on_windows
    then h.equal_fold (h.clean left) (h.clean right)
    else same (h.clean left) (h.clean right)
same_absolute h _ _ = false

-- sameInstallPath
unfoldable pub same_install_path : Host → Bytes → Bytes → Bool
same_install_path h left right =
    if same (h.clean left) (h.clean right) then true else same_absolute h (h.abs left) (h.abs right)

unfoldable pub candidate_accepted : Settings → Host → Option Candidate → Bool
unfolding same_install_path
candidate_accepted s h none = false
candidate_accepted s h (some c) =
    if not (same c.version (expected_version s))
    then false
    else if is_empty h.canonical_launcher || not (same_install_path h c.path h.canonical_launcher)
    then false
    else h.contains_managed_path c.path

-- postcheckAccepted
unfoldable pub postcheck_accepted : Settings → Host → Discovery → Bool
unfolding candidate_accepted
postcheck_accepted s h d = is_supported d.state && candidate_accepted s h d.selected
