-- ===== src/Examples/Host.antt =====
-- Runs of core/src/preflight.rs on one host.
use lyraos_desktop_updater.Prelude.{
  nat_eq, option_eq, Text-discrete, text_list_eq, Text, codes, text_eq, ok, sort_by, dedup, ◌≡◌,
  refl, ◌↔◌, true, false, none, some, List, [], ◌∷◌, arith,
}
use lyraos_desktop_updater.Preflight.Plan.Canonical.{build_plan-perm-eq}
use mathlib.Core.List.Perm
use lyraos_desktop_updater.Domain.{update_within_release, release_upgrade}
use lyraos_desktop_updater.Facts.{
  HostFacts, StorageFacts, RepositoryFact, InstalledPackage, SolverResult, PreflightReport,
  default_policy, passed, PackageChange,
}
use lyraos_desktop_updater.Preflight.{
  evaluate_preflight, found_blockers, required_bytes, storage_blockers, host_blockers,
  battery_blockers, repository_blockers, sort_issues, PreflightIssue-discrete, issue_eq,
}
use lyraos_desktop_updater.Preflight.Verdict.{IsReady, passed-IsReady}
use lyraos_desktop_updater.Preflight.Plan.{UpgradePlan, assemble_plan, build_plan}
use lyraos_desktop_updater.Preflight.Plan.Acceptance.{IsFitting, build_plan-ok_iff}
use lyraos_desktop_updater.Examples.{hash, installed, next_release}

abbrev storage : StorageFacts
storage = record {
  root_writable = true;
  home_isolated = true;
  boot_available_bytes = 536870912;
  esp_available_bytes = some 67108864;
}

abbrev official : RepositoryFact
official = record {
  alias = codes "lyraos";
  enabled = true;
  official = true;
  metadata_valid = true;
  signing_key_trusted = true;
}

abbrev package_of : Text → InstalledPackage
package_of name = record {
  name = name;
  version = codes "1.0";
  architecture = codes "x86_64";
  vendor = codes "lyra";
}

abbrev pub healthy : HostFacts
healthy = record {
  release = installed;
  root_filesystem = codes "btrfs";
  snapper_root_configured = true;
  rpm_database_healthy = true;
  package_lock_free = true;
  available_bytes = 10000000000;
  required_download_bytes = 1000;
  required_transaction_bytes = 2000;
  required_snapshot_bytes = 3000;
  on_battery = false;
  battery_percent = none;
  secure_boot_enabled = some true;
  repositories = official ∷ [];
  held_packages = [];
  installed_packages = package_of (codes "b") ∷ package_of (codes "a") ∷ [];
  storage = some storage;
  orphaned_packages = [];
}

-- A host that is short of space and on a low battery.
abbrev weak : HostFacts
weak = record healthy { available_bytes = 10; on_battery = true; battery_percent = some 12 }

abbrev pub proposal_of : List PackageChange → SolverResult
proposal_of changes = record {
  schema_version = 1;
  successful = true;
  problems = [];
  metadata_valid_repositories = codes "lyraos" ∷ [];
  changes = changes;
  download_bytes = 1000;
  transaction_size_increase = 2000;
  estimated_snapshot_bytes = 3000;
  reboot_required = false;
}

healthy_passes : passed (evaluate_preflight healthy default_policy) ≡ true
unfolding evaluate_preflight sort_issues found_blockers storage_blockers host_blockers
    required_bytes battery_blockers repository_blockers Text-discrete sort_by dedup
healthy_passes = refl

passed-IsReady_example :
    (passed (evaluate_preflight healthy default_policy) ≡ true) ↔ IsReady healthy default_policy
passed-IsReady_example = passed-IsReady healthy default_policy

abbrev report : PreflightReport
report = evaluate_preflight healthy default_policy

abbrev plan : UpgradePlan
plan = assemble_plan release_upgrade healthy report (some next_release) (some hash) (proposal_of [])

build_plan-ok_iff_example :
    (build_plan release_upgrade healthy report (some next_release) (some hash) (proposal_of [])
      ≡ ok plan)
    ↔ ((passed report ≡ true)
        × IsFitting release_upgrade healthy.release (some next_release) (some hash)
        × (plan
            ≡ assemble_plan release_upgrade healthy report
                (some next_release)
                (some hash)
                (proposal_of [])))
build_plan-ok_iff_example =
    build_plan-ok_iff release_upgrade healthy report (some next_release) (some hash)
      (proposal_of []) plan

weak_is_blocked : passed (evaluate_preflight weak default_policy) ≡ false
unfolding evaluate_preflight sort_issues found_blockers storage_blockers host_blockers
    required_bytes battery_blockers repository_blockers Text-discrete sort_by dedup
    PreflightIssue-discrete
weak_is_blocked = refl

weak-not_IsReady : ¬ IsReady weak default_policy
weak-not_IsReady ready =
    let e = (passed-IsReady weak default_policy).1 ready in ground (arith, weak_is_blocked, e)

abbrev reordered : List InstalledPackage
reordered = package_of (codes "a") ∷ package_of (codes "b") ∷ []

build_plan-perm-eq_example :
    build_plan update_within_release
      (record healthy { installed_packages = reordered })
      report
      none
      none
      (record (proposal_of []) { changes = []; metadata_valid_repositories = codes "lyraos" ∷ [] })
    ≡ build_plan update_within_release healthy report none none (proposal_of [])
build_plan-perm-eq_example =
    build_plan-perm-eq update_within_release healthy report none none (proposal_of []) reordered []
      (codes "lyraos" ∷ []) (Perm.swap (package_of (codes "b")) (package_of (codes "a")) [])
      (Perm.refl []) (Perm.refl (codes "lyraos" ∷ []))
