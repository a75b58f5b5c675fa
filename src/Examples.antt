-- ===== src/Examples.antt =====
-- Test data that the runs of the program's parts share.
pub mod Machine
pub mod Host
pub mod Proposal
pub mod Maintenance
pub mod Signed
pub mod Boot
pub mod Execution
pub mod Restoring
pub mod Lines
pub mod Serving
pub mod Staged
pub mod Approving
pub mod Living
use lyraos_desktop_updater.Prelude.{
  Eq, nat_eq, option_dec, option_eq, replicate, text_list_eq, Text, codes, text_eq, ℕ, Option, none,
  some, arith,
}
use lyraos_desktop_updater.Domain.{
  OperationKind, update_within_release, release_upgrade, package_migration, OperationState, idle,
  ReleaseIdentity, OperationStateRecord,
}

abbrev pub hash : Text
hash = replicate 64 b'a'

abbrev pub operation_id : Text
operation_id = codes "00000000-0000-4000-8000-000000000010"

abbrev pub desktop : Text → ReleaseIdentity
desktop version = record {
  version = version;
  edition = codes "desktop";
  architecture = codes "x86_64";
  build_id = codes "build-1";
}

abbrev pub installed : ReleaseIdentity
installed = desktop (codes "0.2.0")

abbrev pub next_release : ReleaseIdentity
next_release = desktop (codes "0.3.0")

abbrev pub update_at : OperationState → Option ℕ → OperationStateRecord
update_at state snapshot = record {
  schema_version = 1;
  operation_id = operation_id;
  sequence = 7;
  operation = update_within_release;
  state = state;
  source = installed;
  target = none;
  plan_sha256 = hash;
  manifest_sha256 = none;
  snapshot_number = snapshot;
  recovery = none;
  last_completed_step = none;
  error_code = none;
  boot_verification = none;
  created_at = codes "2026-01-01T00:00:00Z";
  updated_at = codes "2026-01-01T00:00:00Z";
}

abbrev pub upgrade_at : OperationState → Option ℕ → OperationStateRecord
upgrade_at state snapshot = record (update_at state snapshot) {
  operation = release_upgrade;
  target = some next_release;
  manifest_sha256 = some hash;
}
