-- ===== src/Install/Environment.antt =====
-- environment.go: the desired user environment, computed from the active generation. Cleaning a
-- path is the platform's.
pub mod Plan
use yorva.Prelude.{
  ℕ, zero, suc, ◌-◌, Bool, true, false, not, ◌&&◌, ◌||◌, List, [], ◌∷◌, ◌++◌, Bytes, bytes, same,
  is_empty, has_prefix, if◌then◌else◌, length, select,
}
use yorva.Install.Types.{EnvironmentObservation}

-- What the installer takes from the platform: filepath.Clean, the trimmed value of LOCALAPPDATA,
-- the absolute path of the managed root, and the path of a generation's bin directory under it.
pub record Platform : Type 0 where
  pub clean : Bytes → Bytes
  pub local_app_data : Bytes
  pub root : Bytes
  pub bin_of : Bytes → Bytes

pub record ObservedEnvironment : Type 0 where
  pub hermes_home : Bytes
  pub path_entries : List Bytes

pub record EnvironmentPolicy : Type 0 where
  pub hermes_home : Bytes
  pub desired_bin : Bytes
  pub removable_bins : List Bytes
  pub allow_remove_stale : Bool

pub record EnvironmentPlan : Type 0 where
  pub hermes_home : Bytes
  pub set_hermes_home : Bool
  pub path_entries : List Bytes
  pub path_changed : Bool
  pub desired_bin : Bytes

-- The text from a position on, where the first bytes are still part of a replaced occurrence.
replace_from : ℕ → Bytes → Bytes → Bytes → Bytes
replace_from skip old new [] = []
replace_from (suc skip) old new (c ∷ s) = replace_from skip old new s
replace_from zero old new (c ∷ s) =
    let here = has_prefix (c ∷ s) old in
    (if here then new else c ∷ []) ++ replace_from (if here then length old - 1 else 0) old new s

-- strings.ReplaceAll for a text that is not empty
unfoldable pub replace_all : Bytes → Bytes → Bytes → Bytes
unfolding replace_from
replace_all s old new = replace_from 0 old new s

module _ (platform : Platform) where
  -- expandEnvPath
  unfoldable pub expand_env_path : Bytes → Bytes
  unfolding replace_all
  expand_env_path value =
      let replaced = replace_all value (bytes "%LOCALAPPDATA%") platform.local_app_data in
      replace_all replaced (bytes "%LocalAppData%") platform.local_app_data

  -- sameEnvPath
  unfoldable pub same_env_path : Bytes → Bytes → Bool
  unfolding expand_env_path
  same_env_path a b = same (platform.clean (expand_env_path a)) (platform.clean (expand_env_path b))

  -- isRemovableBin
  unfoldable pub is_removable_bin : Bytes → List Bytes → Bool
  is_removable_bin entry [] = false
  is_removable_bin entry (bin ∷ bins) = same_env_path entry bin || is_removable_bin entry bins

  -- pathHasDesiredPrefix
  unfoldable pub path_has_desired_prefix : List Bytes → Bytes → Bool
  path_has_desired_prefix [] desired = false
  path_has_desired_prefix (entry ∷ entries) desired = same_env_path entry desired

  -- The first loop: the entries kept, and whether one was dropped.
  unfoldable pub keep_entries : EnvironmentPolicy → List Bytes → List Bytes
  keep_entries policy [] = []
  keep_entries policy (entry ∷ entries) =
      let rest = keep_entries policy entries in
      if policy.allow_remove_stale && is_removable_bin entry policy.removable_bins
      then rest
      else entry ∷ rest

  unfoldable pub drops_entry : EnvironmentPolicy → List Bytes → Bool
  drops_entry policy [] = false
  drops_entry policy (entry ∷ entries) =
      policy.allow_remove_stale && is_removable_bin entry policy.removable_bins
      || drops_entry policy entries

  -- The second loop: the entries without the desired one.
  unfoldable pub without_desired : Bytes → List Bytes → List Bytes
  without_desired desired [] = []
  without_desired desired (entry ∷ entries) =
      let rest = without_desired desired entries in
      if same_env_path entry desired then rest else entry ∷ rest

  -- ComputeEnvironmentPlan
  unfoldable pub compute_environment_plan :
      EnvironmentPolicy → ObservedEnvironment → EnvironmentPlan
  compute_environment_plan policy observed =
      let kept = keep_entries policy observed.path_entries in
      let set_home =
        not (is_empty policy.hermes_home)
        && not (same_env_path observed.hermes_home policy.hermes_home) in
      if is_empty policy.desired_bin || path_has_desired_prefix kept policy.desired_bin
      then record {
        hermes_home = policy.hermes_home;
        set_hermes_home = set_home;
        path_entries = kept;
        path_changed = drops_entry policy observed.path_entries;
        desired_bin = policy.desired_bin;
      }
      else record {
        hermes_home = policy.hermes_home;
        set_hermes_home = set_home;
        path_entries = policy.desired_bin ∷ without_desired policy.desired_bin kept;
        path_changed = true;
        desired_bin = policy.desired_bin;
      }

  -- EnvironmentPlan.Observation
  unfoldable pub plan_observation : EnvironmentPlan → ObservedEnvironment → EnvironmentObservation
  plan_observation plan observed = record {
    hermes_home_ok =
        is_empty plan.hermes_home || same_env_path observed.hermes_home plan.hermes_home;
    path_ok =
        is_empty plan.desired_bin || path_has_desired_prefix observed.path_entries plan.desired_bin;
  }

  -- What the two writers of reconcileOnce leave in the environment.
  unfoldable pub apply_plan : EnvironmentPlan → ObservedEnvironment → ObservedEnvironment
  apply_plan plan observed = record {
    hermes_home = if plan.set_hermes_home then plan.hermes_home else observed.hermes_home;
    path_entries = if plan.path_changed then plan.path_entries else observed.path_entries;
  }
