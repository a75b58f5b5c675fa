-- ===== src/Service/Revalidation.antt =====
-- service/src/planner.rs: `check_confirmed_release_plan` and `revalidate_release_plan`, the boundary
-- that a confirmed plan passes before its packages are staged. JSON with SHA-256 is a parameter.
use lyraos_desktop_updater.Prelude.{
  ◌!=◌, nat_eq, option_eq, is_empty, Text-discrete, text_list_eq, Text, text_eq, Result, fail_if,
  ok_or, map_err, ◌>>=◌, ◌>>◌, Bool, not, ◌||◌, Option, some, List,
}
use lyraos_desktop_updater.Domain.{
  kind_eq, release_eq, OperationKind-discrete, ReleaseIdentity-discrete,
}
use lyraos_desktop_updater.Facts.{
  PreflightIssue, PreflightPolicy, HostFacts, SolverResult, default_policy,
}
use lyraos_desktop_updater.Release.{ReleaseManifest, operation, solver_policy}
use lyraos_desktop_updater.Migration.{MigrationError, validate_migration_plan}
use lyraos_desktop_updater.Preflight.Plan.{UpgradePlan, PlanError, build_plan}
use lyraos_desktop_updater.Solver.{vendor_policy_blockers, evaluate_solver_preflight}

-- The errors of the planner that a revalidation meets.
pub data PlannerError : Type 0 where
  serialize plan_changed discovery vendor_metadata solver_xml : PlannerError
  migration : MigrationError → PlannerError
  blocked : List PreflightIssue → PlannerError
  plan : PlanError → PlannerError

-- The SHA-256 of the JSON of a value, if it has one.
pub record Hashes : Type 0 where
  pub of_manifest : ReleaseManifest → Option Text
  pub of_plan : UpgradePlan → Option Text

-- The hash of a plan is compared with the one that was approved.
unfoldable pub check_hash : Hashes → UpgradePlan → Text → Result PlannerError (Unit {0})
unfolding Text-discrete
check_hash hashes p expected_hash = do
  hash ← ok_or (hashes.of_plan p) serialize
  fail_if (hash != expected_hash) plan_changed

abbrev pub refuse_blockers : List PreflightIssue → Result PlannerError (Unit {0})
refuse_blockers blockers = fail_if (not (is_empty blockers)) (blocked blockers)

-- The plan is not that of the manifest.
unfoldable pub is_foreign_plan : ReleaseManifest → Text → UpgradePlan → Bool
unfolding OperationKind-discrete ReleaseIdentity-discrete Text-discrete
is_foreign_plan m manifest_hash confirmed =
    confirmed.operation != operation m
    || confirmed.source != m.source
    || confirmed.target != some m.target
    || confirmed.manifest_sha256 != some manifest_hash

unfoldable pub check_confirmed_release_plan :
    Hashes → ReleaseManifest → UpgradePlan → Text → Result PlannerError (Unit {0})
check_confirmed_release_plan hashes m confirmed expected_hash = do
  manifest_hash ← ok_or (hashes.of_manifest m) serialize
  fail_if (is_foreign_plan m manifest_hash confirmed) plan_changed
  check_hash hashes confirmed expected_hash
  map_err migration
      (validate_migration_plan m confirmed.installed_packages confirmed.package_changes)
  refuse_blockers (vendor_policy_blockers confirmed.package_changes (solver_policy m))

-- The policy of the preflight that the manifest asks for.
abbrev pub preflight_policy : ReleaseManifest → PreflightPolicy
preflight_policy m = record default_policy { minimum_free_space_bytes = m.minimum_free_space_bytes }

-- The plan is built again, and its hash is that of the approved plan.
unfoldable pub rebuild :
    Hashes
    → HostFacts
    → SolverResult
    → ReleaseManifest
    → UpgradePlan
    → Text
    → Result PlannerError (Unit {0})
rebuild hashes facts solver m confirmed expected_hash =
    let report = evaluate_solver_preflight facts (preflight_policy m) solver (solver_policy m) in
    do
      refuse_blockers report.blockers
      rebuilt ←
          map_err plan
            (build_plan (operation m) facts report (some m.target) confirmed.manifest_sha256 solver)
      check_hash hashes (record rebuilt { required_bytes = confirmed.required_bytes }) expected_hash

unfoldable pub revalidate_release_plan :
    Hashes
    → HostFacts
    → SolverResult
    → ReleaseManifest
    → UpgradePlan
    → Text
    → Result PlannerError (Unit {0})
revalidate_release_plan hashes facts solver m confirmed expected_hash = do
  check_confirmed_release_plan hashes m confirmed expected_hash
  map_err migration (validate_migration_plan m facts.installed_packages solver.changes)
  rebuild hashes facts solver m confirmed expected_hash
