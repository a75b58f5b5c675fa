-- ===== src/Preflight/Plan.antt =====
-- core/src/preflight.rs: `build_plan`, and the derived orders that make a plan canonical.
pub mod Acceptance
pub mod Canonical
use Prim.Native.Nat.{compare, Ordering}
use lyraos_desktop_updater.Prelude.{
  if◌then◌else◌, Eq, ◌==◌, ◌!=◌, nat_eq, option_dec, option_eq, is_some, is_none_or, Text-discrete,
  text_list_eq, Text, codes, text_eq, Result, ◌>>=◌, ◌>>◌, fail_if, ok_or, ok, sort_by,
  compare_text, compare_option, then_by, ℕ, Bool, true, false, not, ◌&&◌, ◌||◌, Option, none, some,
  List, [], ◌∷◌, arith,
}
use lyraos_desktop_updater.Domain.{
  OperationKind, update_within_release, release_upgrade, package_migration, ReleaseIdentity,
  release_eq, is_signed_offline, kind_eq, ReleaseIdentity-discrete, OperationKind-discrete,
}
use lyraos_desktop_updater.Persistence.{is_sha256}
use lyraos_desktop_updater.Facts.{
  RepositoryFact, HostFacts, PreflightReport, PreflightIssue, passed, InstalledPackage,
  PackageAction, install, upgrade, downgrade, remove, reinstall, PackageChange, SolverResult,
}
use lyraos_desktop_updater.Preflight.{sort_unique_texts}

abbrev pub plan_schema_version : ℕ
plan_schema_version = 3

-- `facts` is the map in the order of its keys.
pub record UpgradePlan : Type 0 where
  pub schema_version : ℕ
  pub operation : OperationKind
  pub source : ReleaseIdentity
  pub target : Option ReleaseIdentity
  pub manifest_sha256 : Option Text
  pub required_bytes : ℕ
  pub facts : List (Text × Text)
  pub repositories : List RepositoryFact
  pub metadata_valid_repositories : List Text
  pub third_party_repositories : List Text
  pub held_packages : List Text
  pub installed_packages : List InstalledPackage
  pub orphaned_packages : List Text
  pub package_changes : List PackageChange
  pub reboot_required : Bool

pub data PlanError : Type 0 where
  blocked : List PreflightIssue → PlanError
  target_required manifest_required target_not_allowed : PlanError

-- The derived `Ord` of `InstalledPackage`: its fields in their order.
abbrev pub compare_installed : InstalledPackage → InstalledPackage → Ordering
compare_installed a b = then_by (compare_text a.name b.name) (
    then_by (compare_text a.version b.version)
      (then_by (compare_text a.architecture b.architecture) (compare_text a.vendor b.vendor)))

abbrev pub action_rank : PackageAction → ℕ
action_rank install = 0
action_rank upgrade = 1
action_rank downgrade = 2
action_rank remove = 3
action_rank reinstall = 4

abbrev compare_option_text : Option Text → Option Text → Ordering
compare_option_text a b = compare_option compare_text a b

-- The derived `Ord` of `PackageChange`.
unfoldable pub compare_change : PackageChange → PackageChange → Ordering
compare_change a b = then_by (compare_text a.name b.name) (
    then_by (compare_text a.architecture b.architecture) (
      then_by (compare (action_rank a.action) (action_rank b.action)) (
        then_by (compare_option_text a.current_version b.current_version) (
          then_by (compare_option_text a.proposed_version b.proposed_version) (
            then_by (compare_option_text a.current_vendor b.current_vendor) (
              then_by (compare_option_text a.proposed_vendor b.proposed_vendor) (
                then_by (compare_option_text a.repository_alias b.repository_alias) (
                  then_by (compare a.download_bytes b.download_bytes) (
                    then_by (compare a.installed_size_before b.installed_size_before)
                      (compare a.installed_size_after b.installed_size_after))))))))))

abbrev compare_alias : RepositoryFact → RepositoryFact → Ordering
compare_alias a b = compare_text a.alias b.alias

unfoldable pub sort_installed : List InstalledPackage → List InstalledPackage
sort_installed packages = sort_by compare_installed packages

unfoldable pub sort_changes : List PackageChange → List PackageChange
sort_changes changes = sort_by compare_change changes

unfoldable pub sort_repositories : List RepositoryFact → List RepositoryFact
sort_repositories repositories = sort_by compare_alias repositories

-- The test of the target of a signed offline operation.
unfoldable pub target_not_fitting : OperationKind → ReleaseIdentity → ReleaseIdentity → Bool
unfolding Text-discrete OperationKind-discrete ReleaseIdentity-discrete
target_not_fitting operation target release =
    target.edition != release.edition
    || target.architecture != release.architecture
    || operation == release_upgrade && target.version == release.version
    || operation == package_migration && target != release

-- The checks of `build_plan` before it builds.
unfoldable pub check_target :
    OperationKind
    → ReleaseIdentity
    → Option ReleaseIdentity
    → Option Text
    → Result PlanError (Unit {0})
check_target operation release target manifest_sha256 =
    if is_signed_offline operation
    then (do
      target_release ← ok_or target target_required
      fail_if (target_not_fitting operation target_release release) target_not_allowed
      fail_if (is_none_or manifest_sha256 (λ hash. not (is_sha256 hash))) manifest_required)
    else fail_if (is_some target || is_some manifest_sha256) target_not_allowed

abbrev secure_boot_text : Option Bool → Text
secure_boot_text (some true) = codes "true"
secure_boot_text (some false) = codes "false"
secure_boot_text none = codes "unknown"

unfoldable pub assemble_plan :
    OperationKind
    → HostFacts
    → PreflightReport
    → Option ReleaseIdentity
    → Option Text
    → SolverResult
    → UpgradePlan
assemble_plan operation f report target manifest_sha256 solver = record {
  schema_version = plan_schema_version;
  operation = operation;
  source = f.release;
  target = target;
  manifest_sha256 = manifest_sha256;
  required_bytes = report.required_bytes;
  facts =
      (codes "root_filesystem", f.root_filesystem)
      ∷ (codes "secure_boot", secure_boot_text f.secure_boot_enabled)
      ∷ [];
  repositories = sort_repositories f.repositories;
  metadata_valid_repositories = sort_unique_texts solver.metadata_valid_repositories;
  third_party_repositories = report.third_party_repositories;
  held_packages = report.held_packages;
  installed_packages = sort_installed f.installed_packages;
  orphaned_packages = report.orphaned_packages;
  package_changes = sort_changes solver.changes;
  reboot_required = solver.reboot_required || is_signed_offline operation;
}

unfoldable pub build_plan :
    OperationKind
    → HostFacts
    → PreflightReport
    → Option ReleaseIdentity
    → Option Text
    → SolverResult
    → Result PlanError UpgradePlan
build_plan operation f report target manifest_sha256 solver = do
  fail_if (not (passed report)) (blocked report.blockers)
  check_target operation f.release target manifest_sha256
  ok (assemble_plan operation f report target manifest_sha256 solver)
