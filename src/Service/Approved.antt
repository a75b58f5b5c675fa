-- ===== src/Service/Approved.antt =====
-- What the boundary of service/src/planner.rs guarantees of the plan that it lets through.
use lyraos_desktop_updater.Prelude.{
  nat_eq, option_eq, is_some, Option-cases, text_list_eq, Text, text_eq, Result, fail_if, ok_or,
  map_err, >>=-eq-ok, err, ok, ◌≡◌, refl, ap, ◌⊎◌, inl, inr, none, some, List, arith,
}
use lyraos_desktop_updater.Domain.{kind_eq, release_eq}
use lyraos_desktop_updater.Release.{ReleaseManifest, PackageMigration, operation, solver_policy}
use lyraos_desktop_updater.Migration.{MigrationError, validate_migration_plan, pending_migration}
use lyraos_desktop_updater.Migration.Plan.{IsExactPlan, validate_migration_plan-IsExactPlan}
use lyraos_desktop_updater.Preflight.Verdict.{IsReady}
use lyraos_desktop_updater.Solver.{evaluate_solver_preflight, enrich, vendor_policy_blockers}
use lyraos_desktop_updater.Solver.Report.{IsAcceptable, passed-IsAcceptable}
use lyraos_desktop_updater.Facts.{HostFacts, SolverResult, PackageChange, InstalledPackage}
use lyraos_desktop_updater.Preflight.Plan.{UpgradePlan, PlanError, build_plan}
use lyraos_desktop_updater.Solver.Vendors.{AllAuthorized, vendor_policy_blockers-AllAuthorized}
use lyraos_desktop_updater.Service.Revalidation.{
  Hashes, check_hash, refuse_blockers, is_foreign_plan, check_confirmed_release_plan, migration,
  plan, preflight_policy, rebuild, revalidate_release_plan,
}

-- The changes are exactly the pending entries of the migration, if the manifest is of one.
abbrev pub IsMigrationPlan : ReleaseManifest → List InstalledPackage → List PackageChange → Type 0
IsMigrationPlan m installed changes =
    (m.package_migrations ≡ none)
    ⊎ ((pending : List PackageMigration) × (pending_migration m installed ≡ ok pending)
        × IsExactPlan pending changes)

-- A confirmed plan is that of the manifest and of the approved hash, within its policies.
pub record IsApproved (hashes : Hashes) (m : ReleaseManifest) (confirmed : UpgradePlan)
    (hash : Text) : Type 0 where
  pub same_operation : confirmed.operation ≡ operation m
  pub same_source : confirmed.source ≡ m.source
  pub same_target : confirmed.target ≡ some m.target
  pub same_manifest : confirmed.manifest_sha256 ≡ hashes.of_manifest m
  pub same_hash : hashes.of_plan confirmed ≡ some hash
  pub migrates : IsMigrationPlan m confirmed.installed_packages confirmed.package_changes
  pub vendors : AllAuthorized (solver_policy m) confirmed.package_changes

map_err-ok : (r : Result MigrationError (Unit {0})) → map_err migration r ≡ ok tt → r ≡ ok tt
map_err-ok (ok tt) h = refl
map_err-ok (err e) h = cc

validate_migration_plan-IsMigrationPlan :
    (m : ReleaseManifest) (installed : List InstalledPackage) (changes : List PackageChange)
    → validate_migration_plan m installed changes ≡ ok tt
    → IsMigrationPlan m installed changes
validate_migration_plan-IsMigrationPlan m installed changes h =
    elim (Option-cases m.package_migrations) [
      | inl gone ↦ inl gone
      | inr (ps, found) ↦
          inr (validate_migration_plan-IsExactPlan m installed changes (ap is_some found) h)
    ]

check_hash-ok :
    (hashes : Hashes) (p : UpgradePlan) (hash : Text)
    → check_hash hashes p hash ≡ ok tt
    → hashes.of_plan p ≡ some hash
unfolding check_hash
check_hash-ok hashes p hash h = ground arith

refused_none :
    (changes : List PackageChange) (m : ReleaseManifest)
    → refuse_blockers (vendor_policy_blockers changes (solver_policy m)) ≡ ok tt
    → AllAuthorized (solver_policy m) changes
refused_none changes m h =
    (vendor_policy_blockers-AllAuthorized changes (solver_policy m)).0 (ground arith)

-- A plan that the check lets through is the manifest's: it has its operation, its source, its target
-- and its hash, and the approved hash; its changes are exactly the pending entries, if the manifest
-- is of a migration, and each change is authorized by the manifest's vendor rules.
pub check_confirmed_release_plan-IsApproved :
    (hashes : Hashes) (m : ReleaseManifest) (confirmed : UpgradePlan) (hash : Text)
    → check_confirmed_release_plan hashes m confirmed hash ≡ ok tt
    → IsApproved hashes m confirmed hash
unfolding check_confirmed_release_plan is_foreign_plan
check_confirmed_release_plan-IsApproved hashes m confirmed hash h =
    let (manifest_hash, hashed, h) = >>=-eq-ok (ok_or (hashes.of_manifest m) _) _ h in
    let (_, own, h) = >>=-eq-ok (fail_if (is_foreign_plan m manifest_hash confirmed) _) _ h in
    let (_, same, h) = >>=-eq-ok (check_hash hashes confirmed hash) _ h in
    let (_, migrated, h) =
      >>=-eq-ok (map_err migration (validate_migration_plan m _ confirmed.package_changes)) _ h in
    record {
      same_operation = ground arith;
      same_source = ground arith;
      same_target = ground arith;
      same_manifest = ground arith;
      same_hash = check_hash-ok hashes confirmed hash same;
      migrates = validate_migration_plan-IsMigrationPlan m _ _ (map_err-ok _ migrated);
      vendors = refused_none _ m h;
    }

-- The plan that the fresh facts give.
abbrev pub IsRebuilt :
    HostFacts → SolverResult → ReleaseManifest → UpgradePlan → UpgradePlan → Type 0
IsRebuilt facts solver m confirmed rebuilt =
    build_plan (operation m) facts
      (evaluate_solver_preflight facts (preflight_policy m) solver (solver_policy m))
      (some m.target) confirmed.manifest_sha256 solver
    ≡ ok rebuilt

map_plan_err-ok :
    (r : Result PlanError UpgradePlan) (p : UpgradePlan) → map_err plan r ≡ ok p → r ≡ ok p
map_plan_err-ok (ok q) p h = ground arith
map_plan_err-ok (err e) p h = cc

rebuild-ok :
    (hashes : Hashes) (facts : HostFacts) (solver : SolverResult) (m : ReleaseManifest)
    (confirmed : UpgradePlan) (hash : Text)
    → rebuild hashes facts solver m confirmed hash ≡ ok tt
    → IsReady (enrich facts solver) (preflight_policy m)
      × IsAcceptable solver (solver_policy m)
      × ((rebuilt : UpgradePlan) × IsRebuilt facts solver m confirmed rebuilt
          × (hashes.of_plan (record rebuilt { required_bytes = confirmed.required_bytes })
              ≡ some hash))
unfolding rebuild
rebuild-ok hashes facts solver m confirmed hash h =
    let report = evaluate_solver_preflight facts (preflight_policy m) solver (solver_policy m) in
    let (_, unblocked, h) = >>=-eq-ok (refuse_blockers report.blockers) _ h in
    let (rebuilt, built, h) = >>=-eq-ok (map_err plan (build_plan _ _ _ _ _ _)) _ h in
    let passes =
      (passed-IsAcceptable facts (preflight_policy m) solver (solver_policy m)).0 (ground arith) in
    (passes.0, passes.1, (rebuilt, map_plan_err-ok _ rebuilt built, check_hash-ok hashes _ hash h))

-- When no other plan has the approved hash, a plan is validated again only if the host is ready for
-- it on the fresh facts, the fresh proposal keeps to the manifest's policy and carries out exactly
-- the migration's pending entries, and the plan built from both is the confirmed plan, but for its
-- estimate of bytes.
pub revalidate_release_plan-same_plan :
    (hashes : Hashes) (facts : HostFacts) (solver : SolverResult) (m : ReleaseManifest)
    (confirmed : UpgradePlan) (hash : Text)
    → ((p : UpgradePlan) → hashes.of_plan p ≡ some hash → p ≡ confirmed)
    → revalidate_release_plan hashes facts solver m confirmed hash ≡ ok tt
    → IsReady (enrich facts solver) (preflight_policy m)
      × IsAcceptable solver (solver_policy m)
      × IsMigrationPlan m facts.installed_packages solver.changes
      × ((rebuilt : UpgradePlan) × IsRebuilt facts solver m confirmed rebuilt
          × (record rebuilt { required_bytes = confirmed.required_bytes } ≡ confirmed))
unfolding revalidate_release_plan
revalidate_release_plan-same_plan hashes facts solver m confirmed hash unique h =
    let (_, _, h) = >>=-eq-ok (check_confirmed_release_plan hashes m confirmed hash) _ h in
    let (_, migrated, h) =
      >>=-eq-ok (map_err migration (validate_migration_plan m _ solver.changes)) _ h in
    let (ready, acceptable, (rebuilt, built, same)) =
      rebuild-ok hashes facts solver m confirmed hash h in
    (
      ready,
      acceptable,
      validate_migration_plan-IsMigrationPlan m _ _ (map_err-ok _ migrated),
      (rebuilt, built, unique _ same),
    )
