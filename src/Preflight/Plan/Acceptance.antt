-- ===== src/Preflight/Plan/Acceptance.antt =====
-- When `build_plan` accepts (core/src/preflight.rs).
use lyraos_desktop_updater.Prelude.{
  nat_eq, option_eq, Bool-cases, text_list_eq, Text, text_eq, fail_if, >>=-eq-ok, ok, err, ◌≡◌, ◌≢◌,
  ◌↔◌, inl, inr, true, false, not, Option, none, some, arith,
}
use lyraos_desktop_updater.Domain.{
  OperationKind, update_within_release, release_upgrade, package_migration, ReleaseIdentity,
}
use lyraos_desktop_updater.Persistence.{is_sha256}
use lyraos_desktop_updater.Facts.{HostFacts, PreflightPolicy, PreflightReport, passed, SolverResult}
use lyraos_desktop_updater.Preflight.{evaluate_preflight}
use lyraos_desktop_updater.Preflight.Verdict.{IsReady, passed-IsReady}
use lyraos_desktop_updater.Preflight.Plan.{
  UpgradePlan, blocked, target_not_fitting, check_target, assemble_plan, build_plan,
}

abbrev pub IsHashed : Option Text → Type 0
IsHashed none = ⊥
IsHashed (some hash) = is_sha256 hash ≡ true

-- The target that each kind of operation may have on a host of the given release.
abbrev pub IsFitting :
    OperationKind → ReleaseIdentity → Option ReleaseIdentity → Option Text → Type 0
IsFitting update_within_release release target manifest = (target ≡ none) × (manifest ≡ none)
IsFitting release_upgrade release none manifest = ⊥
IsFitting release_upgrade release (some target) manifest =
    (target.edition ≡ release.edition)
    × (target.architecture ≡ release.architecture)
    × (target.version ≢ release.version)
    × IsHashed manifest
IsFitting package_migration release target manifest = (target ≡ some release) × IsHashed manifest

not_fitting_lem :
    (t release : ReleaseIdentity)
    → (target_not_fitting release_upgrade t release ≡ false) ↔ (
        (t.edition ≡ release.edition)
        × (t.architecture ≡ release.architecture)
        × (t.version ≢ release.version))
unfolding target_not_fitting
not_fitting_lem t release = (λ h. ground arith, λ h. ground arith)

migration_fitting_lem :
    (t release : ReleaseIdentity)
    → (target_not_fitting package_migration t release ≡ false) ↔ (t ≡ release)
unfolding target_not_fitting
migration_fitting_lem t release = (λ h. ground arith, λ h. ground arith)

check_target-IsFitting :
    (op : OperationKind) (release : ReleaseIdentity) (target : Option ReleaseIdentity)
    (manifest : Option Text)
    → (check_target op release target manifest ≡ ok tt) ↔ IsFitting op release target manifest
unfolding check_target
check_target-IsFitting update_within_release release target manifest =
    (λ h. ground arith, λ h. ground arith)
check_target-IsFitting release_upgrade release none manifest = (λ h. cc, λ h. absurd h)
check_target-IsFitting release_upgrade release (some t) manifest =
    let fit = not_fitting_lem t release in (λ h. ground (arith, fit.0), λ h. ground (arith, fit.1))
check_target-IsFitting package_migration release none manifest = (λ h. cc, λ h. ground arith)
check_target-IsFitting package_migration release (some t) manifest =
    let fit = migration_fitting_lem t release in
    (λ h. ground (arith, fit.0), λ h. ground (arith, fit.1))

-- A plan is built exactly when the report has no blocker and the target fits the operation, and it is
-- then the one assembled from the facts, the report and the proposal.
pub build_plan-ok_iff :
    (op : OperationKind) (f : HostFacts) (report : PreflightReport)
    (target : Option ReleaseIdentity) (manifest : Option Text) (solver : SolverResult)
    (plan : UpgradePlan)
    → (build_plan op f report target manifest solver ≡ ok plan) ↔ (
        (passed report ≡ true)
        × IsFitting op f.release target manifest
        × (plan ≡ assemble_plan op f report target manifest solver))
unfolding build_plan
build_plan-ok_iff op f report target manifest solver plan =
    let fit = check_target-IsFitting op f.release target manifest in
    (
      λ h.
          let (u, p, rest) = >>=-eq-ok (fail_if (not (passed report)) _) _ h in
          let (v, q, e) = >>=-eq-ok (check_target op f.release target manifest) _ rest in
          (ground arith, fit.0 (cc), ground arith),
      λ (p, t, e). rw (fit.1 t) (ground arith),
    )

-- A blocked report stops every plan, whatever the target, and names its blockers.
pub build_plan-blocked :
    (op : OperationKind) (f : HostFacts) (policy : PreflightPolicy)
    (target : Option ReleaseIdentity) (manifest : Option Text) (solver : SolverResult)
    → ¬ IsReady f policy
    → build_plan op f (evaluate_preflight f policy) target manifest solver
      ≡ err (blocked (evaluate_preflight f policy).blockers)
unfolding build_plan
build_plan-blocked op f policy target manifest solver h =
    elim (Bool-cases (passed (evaluate_preflight f policy))) [
      | inl e ↦ absurd (h ((passed-IsReady f policy).0 e))
      | inr e ↦ rw e
    ]
