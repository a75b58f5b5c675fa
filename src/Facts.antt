-- ===== src/Facts.antt =====
-- The structs that preflight.rs and solver.rs of core/src exchange: facts of the host, the solver's
-- proposal, policies, reports and plans.
use lyraos_desktop_updater.Prelude.{
  nat_eq, option_eq, is_empty, text_list_eq, Text, text_eq, ℕ, Bool, true, Option, List,
}
use lyraos_desktop_updater.Domain.{ReleaseIdentity}

pub record InstalledPackage : Type 0 where
  pub name : Text
  pub version : Text
  pub architecture : Text
  pub vendor : Text

pub record StorageFacts : Type 0 where
  pub root_writable : Bool
  pub home_isolated : Bool
  pub boot_available_bytes : ℕ
  pub esp_available_bytes : Option ℕ

pub record RepositoryFact : Type 0 where
  pub alias : Text
  pub enabled : Bool
  pub official : Bool
  pub metadata_valid : Bool
  pub signing_key_trusted : Bool

pub record HostFacts : Type 0 where
  pub release : ReleaseIdentity
  pub root_filesystem : Text
  pub snapper_root_configured : Bool
  pub rpm_database_healthy : Bool
  pub package_lock_free : Bool
  pub available_bytes : ℕ
  pub required_download_bytes : ℕ
  pub required_transaction_bytes : ℕ
  pub required_snapshot_bytes : ℕ
  pub on_battery : Bool
  pub battery_percent : Option ℕ
  pub secure_boot_enabled : Option Bool
  pub repositories : List RepositoryFact
  pub held_packages : List Text
  pub installed_packages : List InstalledPackage
  pub storage : Option StorageFacts
  pub orphaned_packages : List Text

pub record PreflightPolicy : Type 0 where
  pub minimum_battery_percent : ℕ
  pub free_space_margin_bytes : ℕ
  pub minimum_free_space_bytes : ℕ
  pub require_secure_boot_fact : Bool

-- `PreflightPolicy::default()`
abbrev pub default_policy : PreflightPolicy
default_policy = record {
  minimum_battery_percent = 40;
  free_space_margin_bytes = 1073741824;
  minimum_free_space_bytes = 0;
  require_secure_boot_fact = true;
}

pub data PreflightIssue : Type 0 where
  storage_layout_unknown root_not_writable home_not_isolated insufficient_boot_space :
      PreflightIssue
  insufficient_esp_space unsupported_edition unsupported_architecture : PreflightIssue
  root_not_btrfs snapper_unavailable rpm_database_unhealthy package_manager_busy : PreflightIssue
  insufficient_space battery_too_low battery_state_unknown secure_boot_state_unknown :
      PreflightIssue
  repository_metadata_invalid : Text → PreflightIssue
  repository_key_untrusted : Text → PreflightIssue
  unsupported_solver_schema solver_failed : PreflightIssue
  unauthorized_downgrade : Text → PreflightIssue
  unauthorized_removal : Text → PreflightIssue
  unauthorized_vendor_change : Text → PreflightIssue
  lockstep_violation : PreflightIssue

pub record PreflightReport : Type 0 where
  pub required_bytes : ℕ
  pub available_bytes : ℕ
  pub blockers : List PreflightIssue
  pub third_party_repositories : List Text
  pub held_packages : List Text
  pub orphaned_packages : List Text

-- `PreflightReport::passed`
abbrev pub passed : PreflightReport → Bool
passed report = is_empty report.blockers

pub data PackageAction : Type 0 where
  install upgrade downgrade remove reinstall : PackageAction

pub record PackageChange : Type 0 where
  pub name : Text
  pub architecture : Text
  pub action : PackageAction
  pub current_version : Option Text
  pub proposed_version : Option Text
  pub current_vendor : Option Text
  pub proposed_vendor : Option Text
  pub repository_alias : Option Text
  pub download_bytes : ℕ
  pub installed_size_before : ℕ
  pub installed_size_after : ℕ

pub record SolverResult : Type 0 where
  pub schema_version : ℕ
  pub successful : Bool
  pub problems : List Text
  pub metadata_valid_repositories : List Text
  pub changes : List PackageChange
  pub download_bytes : ℕ
  pub transaction_size_increase : ℕ
  pub estimated_snapshot_bytes : ℕ
  pub reboot_required : Bool

-- `packages` is `none` for a grant of the whole pair.
pub record VendorTransition : Type 0 where
  pub from : Text
  pub to : Text
  pub packages : Option (List Text)

pub record SolverPolicy : Type 0 where
  pub allowed_removals : List Text
  pub allowed_vendor_transitions : List VendorTransition
  pub lockstep_packages : List (List Text)
