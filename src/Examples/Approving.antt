-- ===== src/Examples/Approving.antt =====
-- Runs of the boundary that a confirmed plan passes (service/src/planner.rs).
use lyraos_desktop_updater.Prelude.{
  if◌then◌else◌, ◌==◌, nat_eq, option_eq, ==_refl, Text-discrete, text_list_eq, utf8, bytes,
  byte_len, text_eq, ok, sort_by, dedup, ◌≡◌, refl, ◌≢◌, true, false, none, some, [], arith,
  ℕ_discrete,
}
use lyraos_desktop_updater.Domain.{
  release_upgrade, OperationKind-discrete, ReleaseIdentity-discrete,
}
use lyraos_desktop_updater.Facts.{passed, HostFacts, PreflightReport, SolverResult}
use lyraos_desktop_updater.Release.{operation, solver_policy}
use lyraos_desktop_updater.Migration.{validate_migration_plan}
use lyraos_desktop_updater.Persistence.{is_sha256}
use lyraos_desktop_updater.Preflight.{
  evaluate_preflight, found_blockers, required_bytes, storage_blockers, host_blockers,
  battery_blockers, repository_blockers, sort_issues, issue_eq,
}
use lyraos_desktop_updater.Preflight.Verdict.{IsReady}
use lyraos_desktop_updater.Preflight.Plan.{sort_changes, UpgradePlan, assemble_plan}
use lyraos_desktop_updater.Preflight.Plan.Acceptance.{build_plan-ok_iff}
use lyraos_desktop_updater.Solver.{
  evaluate_solver_preflight, enrich, solver_blockers, vendor_policy_blockers, change_blockers,
  lockstep_blockers, group_broken,
}
use lyraos_desktop_updater.Solver.Report.{IsAcceptable}
use lyraos_desktop_updater.Service.{plan_eq}
use lyraos_desktop_updater.Service.Revalidation.{
  Hashes, check_hash, is_foreign_plan, check_confirmed_release_plan, preflight_policy, rebuild,
  revalidate_release_plan,
}
use lyraos_desktop_updater.Service.Approved.{
  IsMigrationPlan, IsRebuilt, revalidate_release_plan-same_plan,
}
use lyraos_desktop_updater.Examples.{hash, next_release}
use lyraos_desktop_updater.Examples.Host.{healthy, proposal_of}
use lyraos_desktop_updater.Examples.Signed.{route}

abbrev pub facts : HostFacts
facts = record healthy { installed_packages = []; repositories = [] }

abbrev pub proposal : SolverResult
proposal = record (proposal_of []) { metadata_valid_repositories = [] }

abbrev report : PreflightReport
report = evaluate_solver_preflight facts (preflight_policy route) proposal (solver_policy route)

abbrev pub confirmed_plan : UpgradePlan
confirmed_plan = assemble_plan release_upgrade facts report (some next_release) (some hash) proposal

-- The only plan with the approved hash is the confirmed one.
abbrev pub hashes : Hashes
hashes = record {
  of_manifest = λ m. some hash;
  of_plan = λ p. if p == confirmed_plan then some hash else none;
}

only_confirmed : (p : UpgradePlan) → hashes.of_plan p ≡ some hash → p ≡ confirmed_plan
only_confirmed p h = ground arith

approved : hashes.of_plan confirmed_plan ≡ some hash
approved = let e = ==_refl confirmed_plan in ground arith

report_passes : passed report ≡ true
unfolding evaluate_solver_preflight enrich solver_blockers vendor_policy_blockers change_blockers
    lockstep_blockers group_broken solver_policy evaluate_preflight sort_issues found_blockers
    storage_blockers host_blockers required_bytes battery_blockers repository_blockers Text-discrete
    sort_by dedup
report_passes = refl

newer : next_release.version ≢ facts.release.version
newer e = grind arith

hash_fits : is_sha256 hash ≡ true
unfolding is_sha256 byte_len bytes utf8 Text-discrete ℕ_discrete
hash_fits = refl

builds : IsRebuilt facts proposal route confirmed_plan confirmed_plan
unfolding operation assemble_plan
builds =
    (build_plan-ok_iff release_upgrade facts report (some next_release) (some hash) proposal
        confirmed_plan).1
      (report_passes, (refl, refl, newer, hash_fits), refl)

is_own : is_foreign_plan route hash confirmed_plan ≡ false
unfolding is_foreign_plan operation assemble_plan OperationKind-discrete ReleaseIdentity-discrete
    Text-discrete
is_own = refl

pub checked : check_confirmed_release_plan hashes route confirmed_plan hash ≡ ok tt
unfolding check_confirmed_release_plan check_hash validate_migration_plan vendor_policy_blockers
    assemble_plan sort_changes sort_by
checked = rw (is_own, approved) refl

rebuilds : rebuild hashes facts proposal route confirmed_plan hash ≡ ok tt
unfolding rebuild check_hash
rebuilds = rw (report_passes, builds, approved) refl

pub accepted : revalidate_release_plan hashes facts proposal route confirmed_plan hash ≡ ok tt
unfolding revalidate_release_plan validate_migration_plan
accepted = rw (checked, rebuilds) refl

revalidate_release_plan-same_plan_example :
    IsReady (enrich facts proposal) (preflight_policy route)
    × IsAcceptable proposal (solver_policy route)
    × IsMigrationPlan route facts.installed_packages proposal.changes
    × ((rebuilt : UpgradePlan) × IsRebuilt facts proposal route confirmed_plan rebuilt
        × (record rebuilt { required_bytes = confirmed_plan.required_bytes } ≡ confirmed_plan))
revalidate_release_plan-same_plan_example =
    revalidate_release_plan-same_plan hashes facts proposal route confirmed_plan hash only_confirmed
      accepted
