-- ===== src/Preflight.antt =====
-- core/src/preflight.rs: the checks on the host before any plan.
pub mod Verdict
pub mod Plan
use lyraos_desktop_updater.Prelude.{
  ltb, if◌then◌else◌, Eq, ◌!=◌, nat_eq, option_dec, option_eq, saturating_add, is_none, is_some_and,
  Text-discrete, text_list_eq, Text, codes, text_eq, sort_by, dedup, compare_text, sort_texts,
  then_by, ℕ, max, Bool, true, false, not, ◌&&◌, Option, none, some, List, [], ◌∷◌, ◌++◌, arith,
}
use lyraos_desktop_updater.Facts.{
  RepositoryFact, HostFacts, StorageFacts, PreflightPolicy, PreflightReport, PreflightIssue,
  storage_layout_unknown, root_not_writable, home_not_isolated, insufficient_boot_space,
  insufficient_esp_space, unsupported_edition, unsupported_architecture, root_not_btrfs,
  snapper_unavailable, rpm_database_unhealthy, package_manager_busy, insufficient_space,
  battery_too_low, battery_state_unknown, secure_boot_state_unknown, repository_metadata_invalid,
  repository_key_untrusted, unsupported_solver_schema, solver_failed, unauthorized_downgrade,
  unauthorized_removal, unauthorized_vendor_change, lockstep_violation,
}
use Prim.Native.Nat.{compare, Ordering}

-- The derived order of the enum: the place of the variant, then its text.
abbrev pub issue_rank : PreflightIssue → ℕ
issue_rank storage_layout_unknown = 0
issue_rank root_not_writable = 1
issue_rank home_not_isolated = 2
issue_rank insufficient_boot_space = 3
issue_rank insufficient_esp_space = 4
issue_rank unsupported_edition = 5
issue_rank unsupported_architecture = 6
issue_rank root_not_btrfs = 7
issue_rank snapper_unavailable = 8
issue_rank rpm_database_unhealthy = 9
issue_rank package_manager_busy = 10
issue_rank insufficient_space = 11
issue_rank battery_too_low = 12
issue_rank battery_state_unknown = 13
issue_rank secure_boot_state_unknown = 14
issue_rank (repository_metadata_invalid _) = 15
issue_rank (repository_key_untrusted _) = 16
issue_rank unsupported_solver_schema = 17
issue_rank solver_failed = 18
issue_rank (unauthorized_downgrade _) = 19
issue_rank (unauthorized_removal _) = 20
issue_rank (unauthorized_vendor_change _) = 21
issue_rank lockstep_violation = 22

abbrev pub issue_text : PreflightIssue → Text
issue_text (repository_metadata_invalid alias) = alias
issue_text (repository_key_untrusted alias) = alias
issue_text (unauthorized_downgrade name) = name
issue_text (unauthorized_removal name) = name
issue_text (unauthorized_vendor_change name) = name
issue_text _ = []

abbrev pub compare_issue : PreflightIssue → PreflightIssue → Ordering
compare_issue a b =
    then_by (compare (issue_rank a) (issue_rank b)) (compare_text (issue_text a) (issue_text b))

unfoldable pub PreflightIssue-discrete : Discrete PreflightIssue
unfolding Text-discrete
PreflightIssue-discrete = hlevel Text-discrete

instance abbrev pub issue_eq : Eq PreflightIssue
issue_eq = record { dec = PreflightIssue-discrete }

-- `blockers.sort(); blockers.dedup();`
unfoldable pub sort_issues : List PreflightIssue → List PreflightIssue
unfolding sort_by compare_text dedup PreflightIssue-discrete
sort_issues issues = dedup (sort_by compare_issue issues)

-- `texts.sort(); texts.dedup();`
unfoldable pub sort_unique_texts : List Text → List Text
unfolding sort_texts dedup Text-discrete
sort_unique_texts texts = dedup (sort_texts texts)

-- `if test { blockers.push(issue); }`
abbrev pub block_if : Bool → PreflightIssue → List PreflightIssue
block_if true issue = issue ∷ []
block_if false issue = []

unfoldable pub storage_blockers : Option StorageFacts → List PreflightIssue
storage_blockers none = storage_layout_unknown ∷ []
storage_blockers (some s) =
    block_if (not s.root_writable) root_not_writable
    ++ (block_if (not s.home_isolated) home_not_isolated
        ++ (block_if (ltb s.boot_available_bytes 268435456) insufficient_boot_space
            ++ block_if (is_some_and s.esp_available_bytes (λ b. ltb b 33554432))
                insufficient_esp_space))

unfoldable pub host_blockers : HostFacts → List PreflightIssue
unfolding Text-discrete
host_blockers f =
    block_if (f.release.edition != codes "desktop") unsupported_edition
    ++ (block_if (f.release.architecture != codes "x86_64") unsupported_architecture
        ++ (block_if (f.root_filesystem != codes "btrfs") root_not_btrfs
            ++ (block_if (not f.snapper_root_configured) snapper_unavailable
                ++ (block_if (not f.rpm_database_healthy) rpm_database_unhealthy
                    ++ block_if (not f.package_lock_free) package_manager_busy))))

unfoldable pub required_bytes : HostFacts → PreflightPolicy → ℕ
required_bytes f policy =
    max
      (saturating_add
        (saturating_add (saturating_add f.required_download_bytes f.required_transaction_bytes)
          f.required_snapshot_bytes)
        policy.free_space_margin_bytes)
      policy.minimum_free_space_bytes

unfoldable pub battery_blockers : HostFacts → PreflightPolicy → List PreflightIssue
battery_blockers f policy =
    if f.on_battery
    then elim f.battery_percent [
      | some percent ↦ block_if (ltb percent policy.minimum_battery_percent) battery_too_low
      | none ↦ battery_state_unknown ∷ []
    ]
    else []

unfoldable pub repository_blockers : List RepositoryFact → List PreflightIssue
repository_blockers [] = []
repository_blockers (r ∷ rs) =
    (if r.enabled
      then block_if (not r.metadata_valid) (repository_metadata_invalid r.alias)
        ++ block_if (not r.signing_key_trusted) (repository_key_untrusted r.alias)
      else [])
    ++ repository_blockers rs

unfoldable pub third_party : List RepositoryFact → List Text
third_party [] = []
third_party (r ∷ rs) = (if r.enabled && not r.official then r.alias ∷ [] else []) ++ third_party rs

-- All that `evaluate_preflight` pushes, in its order.
unfoldable pub found_blockers : HostFacts → PreflightPolicy → List PreflightIssue
found_blockers f policy =
    storage_blockers f.storage
    ++ (host_blockers f
        ++ (block_if (ltb f.available_bytes (required_bytes f policy)) insufficient_space
            ++ (battery_blockers f policy
                ++ (block_if (policy.require_secure_boot_fact && is_none f.secure_boot_enabled)
                      secure_boot_state_unknown
                    ++ repository_blockers f.repositories))))

unfoldable pub evaluate_preflight : HostFacts → PreflightPolicy → PreflightReport
evaluate_preflight f policy = record {
  required_bytes = required_bytes f policy;
  available_bytes = f.available_bytes;
  blockers = sort_issues (found_blockers f policy);
  third_party_repositories = sort_unique_texts (third_party f.repositories);
  held_packages = sort_unique_texts f.held_packages;
  orphaned_packages = sort_unique_texts f.orphaned_packages;
}
