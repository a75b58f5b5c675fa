-- ===== src/Solver/Report.antt =====
-- When a solver's proposal passes the whole preflight (core/src/solver.rs).
use lyraos_desktop_updater.Prelude.{
  ◌==◌, nat_eq, option_eq, and_left, and_right, is_empty, any, all, is_empty-append, is_empty-keep,
  length-keep_iff, contains, text_list_eq, Text, text_eq, ◌≡◌, refl, sym, ◌∙◌, ◌≢◌, ◌↔◌, ◌⊎◌, Bool,
  true, false, ◌&&◌, List, [], ◌∷◌, ◌++◌, arith,
}
use lyraos_desktop_updater.Facts.{
  HostFacts, PreflightPolicy, downgrade, remove, PackageChange, SolverResult, SolverPolicy, passed,
}
use lyraos_desktop_updater.Preflight.{issue_eq, evaluate_preflight}
use lyraos_desktop_updater.Preflight.Verdict.{is_empty-sort_issues, IsReady, passed-IsReady}
use lyraos_desktop_updater.Solver.{
  change_blockers, group_broken, lockstep_blockers, enrich, solver_blockers, vendor_policy_blockers,
  evaluate_solver_preflight,
}
use lyraos_desktop_updater.Solver.Vendors.{AllAuthorized, vendor_policy_blockers-AllAuthorized}

-- No downgrade, and no removal that the policy does not name.
abbrev pub IsAllowedAction : SolverPolicy → PackageChange → Type 0
IsAllowedAction policy c =
    (c.action ≢ downgrade)
    × ((c.action ≢ remove) ⊎ (contains policy.allowed_removals c.name ≡ true))

abbrev pub AllAllowed : SolverPolicy → List PackageChange → Type 0
AllAllowed policy [] = Unit
AllAllowed policy (c ∷ cs) = IsAllowedAction policy c × AllAllowed policy cs

abbrev pub is_changed : List PackageChange → Text → Bool
is_changed changes name = any (λ change. change.name == name) changes

-- The packages of a group all stay, or all change.
abbrev pub IsWhole : List PackageChange → List Text → Type 0
IsWhole changes group =
    (any (is_changed changes) group ≡ false) ⊎ (all (is_changed changes) group ≡ true)

abbrev pub AllWhole : List PackageChange → List (List Text) → Type 0
AllWhole changes [] = Unit
AllWhole changes (g ∷ gs) = IsWhole changes g × AllWhole changes gs

-- What the policy asks of the solver's proposal.
pub record IsAcceptable (solver : SolverResult) (policy : SolverPolicy) : Type 0 where
  pub schema : solver.schema_version ≡ 1
  pub successful : solver.successful ≡ true
  pub no_problems : is_empty solver.problems ≡ true
  pub actions : AllAllowed policy solver.changes
  pub vendors : AllAuthorized policy solver.changes
  pub groups : AllWhole solver.changes policy.lockstep_packages

change_blockers_lem :
    (policy : SolverPolicy) (cs : List PackageChange)
    → (is_empty (change_blockers policy cs) ≡ true) ↔ AllAllowed policy cs
unfolding change_blockers
change_blockers_lem policy [] = (λ _. tt, λ _. refl)
change_blockers_lem policy (c ∷ cs) =
    let rest = change_blockers_lem policy cs in
    (λ h. ground (arith, rest.0), λ h. ground (arith, rest.1))

group_lem :
    (changes : List PackageChange) (group : List Text)
    → (group_broken changes group ≡ false) ↔ IsWhole changes group
unfolding group_broken
group_lem changes group =
    let none_kept = is_empty-keep (is_changed changes) group in
    let all_kept = length-keep_iff (is_changed changes) group in
    (λ h. ground (arith, none_kept, all_kept.0), λ h. ground (arith, none_kept, all_kept.1))

lockstep_lem :
    (changes : List PackageChange) (groups : List (List Text))
    → (is_empty (lockstep_blockers changes groups) ≡ true) ↔ AllWhole changes groups
unfolding lockstep_blockers
lockstep_lem changes [] = (λ _. tt, λ _. refl)
lockstep_lem changes (g ∷ gs) =
    let rest = lockstep_lem changes gs in
    let here = group_lem changes g in
    (
      λ h. (here.0 (ground arith), rest.0 (ground arith)),
      λ (a, b). let e = here.1 a in rw e (rest.1 b),
    )

solver_blockers_parts :
    (solver : SolverResult) (policy : SolverPolicy)
    → is_empty (solver_blockers solver policy) ≡ (
        (solver.schema_version == 1)
        && ((solver.successful && is_empty solver.problems)
            && (is_empty (change_blockers policy solver.changes)
                && (is_empty (vendor_policy_blockers solver.changes policy)
                    && is_empty (lockstep_blockers solver.changes policy.lockstep_packages)))))
unfolding solver_blockers
solver_blockers_parts solver policy = simp is_empty-append (ground arith)

solver_blockers_lem :
    (solver : SolverResult) (policy : SolverPolicy)
    → (is_empty (solver_blockers solver policy) ≡ true) ↔ IsAcceptable solver policy
solver_blockers_lem solver policy =
    let changes = change_blockers_lem policy solver.changes in
    let vendors = vendor_policy_blockers-AllAuthorized solver.changes policy in
    let groups = lockstep_lem solver.changes policy.lockstep_packages in
    (
      λ h.
          let parts = sym (solver_blockers_parts solver policy) ∙ h in
          record {
            schema = ground arith;
            successful = ground arith;
            no_problems = ground arith;
            actions = changes.0 (ground arith);
            vendors = vendors.0 (ground arith);
            groups = groups.0 (ground arith);
          },
      λ a.
          solver_blockers_parts solver policy
          ∙ ground (
            arith,
            a.schema,
            a.successful,
            a.no_problems,
            changes.1 a.actions,
            vendors.1 a.vendors,
            groups.1 a.groups,
          ),
    )

-- The solver preflight passes exactly when the host, with the sizes and the metadata that the solver
-- found, is ready, and the proposal keeps to the release's policy.
pub passed-IsAcceptable :
    (f : HostFacts) (preflight_policy : PreflightPolicy) (solver : SolverResult)
    (policy : SolverPolicy)
    → (passed (evaluate_solver_preflight f preflight_policy solver policy) ≡ true)
      ↔ (IsReady (enrich f solver) preflight_policy × IsAcceptable solver policy)
unfolding evaluate_solver_preflight
passed-IsAcceptable f preflight_policy solver policy =
    let base = (evaluate_preflight (enrich f solver) preflight_policy).blockers in
    let more = solver_blockers solver policy in
    let same = is_empty-sort_issues (base ++ more) ∙ is_empty-append base more in
    let ready = passed-IsReady (enrich f solver) preflight_policy in
    let acceptable = solver_blockers_lem solver policy in
    (
      λ h.
          let both = sym same ∙ h in
          (ready.0 (and_left _ _ both), acceptable.0 (and_right (is_empty base) _ both)),
      λ (r, a). same ∙ ground (arith, ready.1 r, acceptable.1 a),
    )
