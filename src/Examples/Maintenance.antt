-- ===== src/Examples/Maintenance.antt =====
-- Runs of core/src/migration.rs on one manifest that moves two packages.
use lyraos_desktop_updater.Prelude.{
  nat_eq, option_eq, replicate, Text-discrete, text_list_eq, utf8, bytes, byte_len, is_whitespace,
  is_control, trim, trim_start, Text, codes, text_eq, ok, ◌≡◌, refl, Bool, true, false, some, List,
  [], ◌∷◌, ℕ_discrete,
}
use lyraos_desktop_updater.Domain.{ReleaseIdentity-discrete}
use lyraos_desktop_updater.Facts.{InstalledPackage, PackageChange, upgrade}
use lyraos_desktop_updater.Release.{
  ManifestStatus, RepositoryTransition, PackageMigration, ReleaseManifest,
}
use lyraos_desktop_updater.Solver.{valid_package, valid_vendor}
use lyraos_desktop_updater.Migration.{
  validate_migration, validate_packages, entries_valid_from, entry_valid, valid_edition,
  valid_sha256, rule_covered, is_move_of, pending_migration, pending_from, entry_step, migrations,
  validate_migration_plan, check_changes, changes_expected_from, carries_out,
}
use lyraos_desktop_updater.Migration.Plan.{
  Selected, pending_migration-Selected, IsExactPlan, validate_migration_plan-IsExactPlan,
}
use lyraos_desktop_updater.Examples.{hash, installed}

abbrev entry : Text → Bool → PackageMigration
entry name optional = record {
  name = name;
  architecture = codes "x86_64";
  from_version = codes "1.0-1";
  from_vendor = codes "lyra";
  to_version = codes "1.0-2";
  to_vendor = codes "vendor-b";
  repository_alias = codes "lyraos";
  sha256 = hash;
  if_installed = optional;
}

abbrev pub repository : RepositoryTransition
repository = record {
  alias = codes "lyraos";
  base_url = codes "https://repo.example/x";
  signing_key_url = codes "https://repo.example/key";
  signing_key_fingerprint = replicate 40 b'A';
  priority = 90;
}

abbrev pub maintenance : ReleaseManifest
maintenance = record {
  schema_version = 1;
  sequence = 5;
  status = ManifestStatus.available;
  valid_from = codes "2026-01-01T00:00:00Z";
  valid_until = codes "2026-12-01T00:00:00Z";
  source = installed;
  target = installed;
  minimum_updater_version = codes "0.2.7";
  minimum_free_space_bytes = 1;
  repositories = repository ∷ [];
  allowed_removals = [];
  allowed_vendor_transitions =
      record { from = codes "lyra"; to = codes "vendor-b"; packages = some (codes "kernel" ∷ []) }
      ∷ [];
  lockstep_packages = [];
  package_migrations = some (entry (codes "kernel") false ∷ entry (codes "mesa") true ∷ []);
}

-- The host has the required package, and not the optional one.
abbrev packages : List InstalledPackage
packages =
    record {
      name = codes "kernel";
      version = codes "1.0-1";
      architecture = codes "x86_64";
      vendor = codes "lyra";
    }
    ∷ []

abbrev replacement : PackageChange
replacement = record {
  name = codes "kernel";
  architecture = codes "x86_64";
  action = upgrade;
  current_version = some (codes "1.0-1");
  proposed_version = some (codes "1.0-2");
  current_vendor = some (codes "lyra");
  proposed_vendor = some (codes "vendor-b");
  repository_alias = some (codes "lyraos");
  download_bytes = 10;
  installed_size_before = 20;
  installed_size_after = 30;
}

maintenance_is_valid : validate_migration maintenance ≡ ok tt
unfolding validate_migration validate_packages entries_valid_from entry_valid valid_edition
    valid_sha256 rule_covered is_move_of valid_package valid_vendor ReleaseIdentity-discrete
    Text-discrete ℕ_discrete byte_len bytes utf8 trim trim_start is_whitespace is_control
maintenance_is_valid = refl

kernel_is_pending : pending_migration maintenance packages ≡ ok (entry (codes "kernel") false ∷ [])
unfolding pending_migration pending_from entry_step Text-discrete ℕ_discrete
kernel_is_pending = rw maintenance_is_valid refl

replacement_is_accepted : validate_migration_plan maintenance packages (replacement ∷ []) ≡ ok tt
unfolding validate_migration_plan check_changes changes_expected_from carries_out Text-discrete
    ℕ_discrete
replacement_is_accepted = rw kernel_is_pending refl

pending_migration-Selected_example :
    (validate_migration maintenance ≡ ok tt)
    × Selected packages (migrations maintenance) (entry (codes "kernel") false ∷ [])
pending_migration-Selected_example =
    pending_migration-Selected maintenance packages (entry (codes "kernel") false ∷ [])
      kernel_is_pending

validate_migration_plan-IsExactPlan_example :
    (pending : List PackageMigration) × (pending_migration maintenance packages ≡ ok pending)
    × IsExactPlan pending (replacement ∷ [])
validate_migration_plan-IsExactPlan_example =
    validate_migration_plan-IsExactPlan maintenance packages (replacement ∷ []) refl
      replacement_is_accepted
