-- ===== src/Install/Environment/Plan.antt =====
-- What a plan for the environment reaches and what it keeps.
use yorva.Prelude.{
  true, false, not, ◌&&◌, ◌||◌, List, [], ◌∷◌, Bytes, is_empty, same_refl, if◌then◌else◌, select,
  ◌≡◌, refl, arith,
}
use mathlib.Core.Path.{subst, sym}
use yorva.Install.Types.{complete}
use yorva.Install.Environment.{
  Platform, ObservedEnvironment, EnvironmentPolicy, same_env_path, is_removable_bin,
  path_has_desired_prefix, keep_entries, drops_entry, without_desired, compute_environment_plan,
  plan_observation, apply_plan,
}

module _ (platform : Platform) where
  same_env_path_refl : (a : Bytes) → same_env_path platform a a ≡ true
  unfolding same_env_path
  same_env_path_refl a = same_refl _

  keep_entries-undropped :
      (policy : EnvironmentPolicy) (entries : List Bytes)
      → drops_entry platform policy entries ≡ false
      → keep_entries platform policy entries ≡ entries
  unfolding keep_entries drops_entry
  keep_entries-undropped policy [] h = refl
  keep_entries-undropped policy (e ∷ es) h = ground (arith, keep_entries-undropped policy es)

  -- Once its plan is applied, the environment is complete for that plan, whatever it was before.
  pub plan_completes :
      (policy : EnvironmentPolicy) (observed : ObservedEnvironment)
      → let plan = compute_environment_plan platform policy observed in
        complete (plan_observation platform plan (apply_plan platform plan observed)) ≡ true
  unfolding compute_environment_plan plan_observation apply_plan path_has_desired_prefix
  plan_completes policy observed = ground (
    arith,
    same_env_path_refl policy.hermes_home,
    same_env_path_refl policy.desired_bin,
    keep_entries-undropped policy observed.path_entries,
  )

  drops_entry-keep_entries :
      (policy : EnvironmentPolicy) (entries : List Bytes)
      → drops_entry platform policy (keep_entries platform policy entries) ≡ false
  unfolding keep_entries drops_entry
  drops_entry-keep_entries policy [] = refl
  drops_entry-keep_entries policy (e ∷ es) = ground (arith, drops_entry-keep_entries policy es)

  drops_entry-without_desired :
      (policy : EnvironmentPolicy) (desired : Bytes) (entries : List Bytes)
      → drops_entry platform policy entries ≡ false
      → drops_entry platform policy (without_desired platform desired entries) ≡ false
  unfolding without_desired drops_entry
  drops_entry-without_desired policy desired [] h = refl
  drops_entry-without_desired policy desired (e ∷ es) h =
      ground (arith, drops_entry-without_desired policy desired es)

  -- The path that an applied plan leaves.
  path_after : EnvironmentPolicy → List Bytes → List Bytes
  path_after policy entries =
      let kept = keep_entries platform policy entries in
      if is_empty policy.desired_bin || path_has_desired_prefix platform kept policy.desired_bin
      then kept
      else policy.desired_bin ∷ without_desired platform policy.desired_bin kept

  path_entries-apply_plan :
      (policy : EnvironmentPolicy) (observed : ObservedEnvironment)
      → (apply_plan platform
          (compute_environment_plan platform policy observed)
          observed).path_entries
        ≡ path_after policy observed.path_entries
  unfolding apply_plan compute_environment_plan path_after
  path_entries-apply_plan policy observed =
      ground (arith, keep_entries-undropped policy observed.path_entries)

  drops_entry-path_after :
      (policy : EnvironmentPolicy) (entries : List Bytes)
      → is_removable_bin platform policy.desired_bin policy.removable_bins ≡ false
      → drops_entry platform policy (path_after policy entries) ≡ false
  unfolding path_after drops_entry
  drops_entry-path_after policy entries h =
      let kept = keep_entries platform policy entries in
      let d = drops_entry-keep_entries policy entries in
      ground (arith, d, drops_entry-without_desired policy policy.desired_bin kept d)

  prefix-path_after :
      (policy : EnvironmentPolicy) (entries : List Bytes)
      → (is_empty policy.desired_bin
          || path_has_desired_prefix platform (path_after policy entries) policy.desired_bin)
        ≡ true
  unfolding path_after path_has_desired_prefix
  prefix-path_after policy entries = ground (arith, same_env_path_refl policy.desired_bin)

  settled_path :
      (policy : EnvironmentPolicy) (home : Bytes) (entries : List Bytes)
      → is_removable_bin platform policy.desired_bin policy.removable_bins ≡ false
      → let again =
          compute_environment_plan platform policy
            (record { hermes_home = home; path_entries = path_after policy entries }) in
        (again.path_changed ≡ false) × (again.path_entries ≡ path_after policy entries)
  unfolding compute_environment_plan
  settled_path policy home entries h =
      let d = drops_entry-path_after policy entries h in
      let k = keep_entries-undropped policy (path_after policy entries) d in
      rw (k, prefix-path_after policy entries, d) (refl, refl)

  settled_home :
      (policy : EnvironmentPolicy) (observed : ObservedEnvironment) (entries : List Bytes)
      → (compute_environment_plan platform policy (record {
        hermes_home =
            (apply_plan platform
              (compute_environment_plan platform policy observed)
              observed).hermes_home;
        path_entries = entries;
      })).set_hermes_home
        ≡ false
  unfolding compute_environment_plan apply_plan
  settled_home policy observed entries = ground (arith, same_env_path_refl policy.hermes_home)

  -- Applying a plan settles the environment: the plan computed next changes nothing, if the desired
  -- directory is not itself one of the removable ones.
  pub plan_settles :
      (policy : EnvironmentPolicy) (observed : ObservedEnvironment)
      → is_removable_bin platform policy.desired_bin policy.removable_bins ≡ false
      → let observed' =
          apply_plan platform (compute_environment_plan platform policy observed) observed in
        let again = compute_environment_plan platform policy observed' in
        (again.set_hermes_home ≡ false)
        × (again.path_changed ≡ false)
        × (again.path_entries ≡ observed'.path_entries)
  plan_settles policy observed h =
      let o = apply_plan platform (compute_environment_plan platform policy observed) observed in
      let at_path =
        subst
          (λ (es : List Bytes).
            let again =
              compute_environment_plan platform policy
                (record { hermes_home = o.hermes_home; path_entries = es }) in
            (again.path_changed ≡ false) × (again.path_entries ≡ es))
          (sym (path_entries-apply_plan policy observed))
          (settled_path policy o.hermes_home observed.path_entries h) in
      (settled_home policy observed o.path_entries, at_path.0, at_path.1)

  -- The entries that a plan has no say in: neither the desired directory nor a stale one.
  abbrev pub foreign : EnvironmentPolicy → List Bytes → List Bytes
  foreign policy = select (λ entry.
      not (same_env_path platform entry policy.desired_bin)
      && not (policy.allow_remove_stale && is_removable_bin platform entry policy.removable_bins))

  foreign-keep_entries :
      (policy : EnvironmentPolicy) (entries : List Bytes)
      → foreign policy (keep_entries platform policy entries) ≡ foreign policy entries
  unfolding keep_entries
  foreign-keep_entries policy [] = refl
  foreign-keep_entries policy (e ∷ es) = ground (arith, foreign-keep_entries policy es)

  foreign-without_desired :
      (policy : EnvironmentPolicy) (entries : List Bytes)
      → foreign policy (without_desired platform policy.desired_bin entries)
        ≡ foreign policy entries
  unfolding without_desired
  foreign-without_desired policy [] = refl
  foreign-without_desired policy (e ∷ es) = ground (arith, foreign-without_desired policy es)

  foreign-path_after :
      (policy : EnvironmentPolicy) (entries : List Bytes)
      → foreign policy (path_after policy entries) ≡ foreign policy entries
  unfolding path_after
  foreign-path_after policy entries = ground (
    arith,
    foreign-keep_entries policy entries,
    foreign-without_desired policy (keep_entries platform policy entries),
    same_env_path_refl policy.desired_bin,
  )

  -- A plan keeps every foreign entry of the path, in order.
  pub plan_keeps_foreign :
      (policy : EnvironmentPolicy) (observed : ObservedEnvironment)
      → let plan = compute_environment_plan platform policy observed in
        foreign policy (apply_plan platform plan observed).path_entries
        ≡ foreign policy observed.path_entries
  plan_keeps_foreign policy observed =
      rw (path_entries-apply_plan policy observed) (foreign-path_after policy observed.path_entries)
