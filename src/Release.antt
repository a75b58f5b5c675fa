-- ===== src/Release.antt =====
-- The signed release manifest: the structs of core/src/manifest.rs and core/src/migration.rs. The
-- `Wire` form of a vendor transition has the fields of `VendorTransition`.
use lyraos_desktop_updater.Prelude.{
  if◌then◌else◌, Eq, nat_eq, option_eq, is_some, text_list_eq, Text, text_eq, ℕ, Bool, Option, List,
  map,
}
use lyraos_desktop_updater.Domain.{
  OperationKind, release_upgrade, package_migration, ReleaseIdentity,
}
use lyraos_desktop_updater.Facts.{VendorTransition, SolverPolicy}

pub data ManifestStatus : Type 0 where
  testing available paused withdrawn : ManifestStatus

unfoldable pub ManifestStatus-discrete : Discrete ManifestStatus
ManifestStatus-discrete = hlevel

instance abbrev pub status_eq : Eq ManifestStatus
status_eq = record { dec = ManifestStatus-discrete }

pub data ManifestChannelPolicy : Type 0 where
  stable testing : ManifestChannelPolicy

unfoldable pub ManifestChannelPolicy-discrete : Discrete ManifestChannelPolicy
ManifestChannelPolicy-discrete = hlevel

instance abbrev pub channel_eq : Eq ManifestChannelPolicy
channel_eq = record { dec = ManifestChannelPolicy-discrete }

pub record RepositoryTransition : Type 0 where
  pub alias : Text
  pub base_url : Text
  pub signing_key_url : Text
  pub signing_key_fingerprint : Text
  pub priority : ℕ

pub record PackageMigration : Type 0 where
  pub name : Text
  pub architecture : Text
  pub from_version : Text
  pub from_vendor : Text
  pub to_version : Text
  pub to_vendor : Text
  pub repository_alias : Text
  pub sha256 : Text
  pub if_installed : Bool

pub record VendorTransitionWire : Type 0 where
  pub from : Text
  pub to : Text
  pub packages : Option (List Text)

pub record ReleaseManifest : Type 0 where
  pub schema_version : ℕ
  pub sequence : ℕ
  pub status : ManifestStatus
  pub valid_from : Text
  pub valid_until : Text
  pub source : ReleaseIdentity
  pub target : ReleaseIdentity
  pub minimum_updater_version : Text
  pub minimum_free_space_bytes : ℕ
  pub repositories : List RepositoryTransition
  pub allowed_removals : List Text
  pub allowed_vendor_transitions : List VendorTransitionWire
  pub lockstep_packages : List (List Text)
  pub package_migrations : Option (List PackageMigration)

-- `ReleaseManifest::operation`
unfoldable pub operation : ReleaseManifest → OperationKind
operation m = if is_some m.package_migrations then package_migration else release_upgrade

abbrev pub of_wire : VendorTransitionWire → VendorTransition
of_wire t = record { from = t.from; to = t.to; packages = t.packages }

-- `ReleaseManifest::solver_policy`
unfoldable pub solver_policy : ReleaseManifest → SolverPolicy
solver_policy m = record {
  allowed_removals = m.allowed_removals;
  allowed_vendor_transitions = map of_wire m.allowed_vendor_transitions;
  lockstep_packages = m.lockstep_packages;
}
