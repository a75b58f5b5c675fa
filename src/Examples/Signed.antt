-- ===== src/Examples/Signed.antt =====
-- Runs of core/src/manifest.rs on one manifest. The parser of URLs is a concrete function here: it
-- reads every text as one address with the scheme `https` and a host.
use lyraos_desktop_updater.Prelude.{
  nat_eq, option_eq, Text-discrete, text_list_eq, utf8, bytes, byte_len, is_whitespace, starts_with,
  split_once, Text, codes, text_eq, ok, err, ◌≡◌, refl, ◌↔◌, true, Option, none, some, [],
  ℕ_discrete,
}
use lyraos_desktop_updater.Release.{
  ManifestChannelPolicy-discrete, ManifestStatus-discrete, solver_policy, ManifestChannelPolicy,
  ReleaseManifest,
}
use lyraos_desktop_updater.Domain.{ReleaseIdentity-discrete}
use lyraos_desktop_updater.Solver.{valid_package, valid_vendor_transitions, valid_rules_from}
use lyraos_desktop_updater.Manifest.{
  replay, status_allowed, target_supported, check_target, check_sequence, check_updater,
  check_policy, check_repositories, repository_usable, valid_https_url, valid_alias, valid_build_id,
  valid_fingerprint, valid_group, Url, validate_manifest_route,
}
use lyraos_desktop_updater.Manifest.Version.{
  is_prerelease, split, parse_u64, parse_digits, parse_digits, parse_u64, split,
  valid_version_transition, semantic_version, release_version, is_legacy_calendar_version,
}
use lyraos_desktop_updater.Manifest.Route.{IsValidRoute, validate_manifest_route-IsValidRoute}
use lyraos_desktop_updater.Examples.{installed, next_release}
use lyraos_desktop_updater.Examples.Maintenance.{maintenance}

abbrev pub parse_any : Text → Option Url
parse_any value = some (record {
  scheme = codes "https";
  host = some value;
  username = [];
  password = none;
  query = none;
  fragment = none;
})

-- A manifest of a release upgrade.
abbrev pub route : ReleaseManifest
route = record maintenance {
  target = next_release;
  allowed_vendor_transitions = [];
  package_migrations = none;
}

-- The route is accepted while its sequence is new, and refused once it has been applied.
route_runs :
    (validate_manifest_route parse_any route installed
        (some 4)
        (codes "0.3.0")
        ManifestChannelPolicy.stable
      ≡ ok tt)
    × (validate_manifest_route parse_any route installed
          (some 5)
          (codes "0.3.0")
          ManifestChannelPolicy.stable
        ≡ err replay)
unfolding validate_manifest_route status_allowed target_supported check_target check_sequence
    check_updater check_policy check_repositories repository_usable valid_https_url valid_alias
    valid_build_id valid_fingerprint valid_group valid_package valid_vendor_transitions
    valid_rules_from solver_policy is_prerelease valid_version_transition release_version
    semantic_version is_legacy_calendar_version ManifestStatus-discrete
    ManifestChannelPolicy-discrete ReleaseIdentity-discrete Text-discrete ℕ_discrete split_once
    split parse_u64 parse_digits starts_with bytes utf8 byte_len is_whitespace
route_runs = (refl, refl)

validate_manifest_route-IsValidRoute_example :
    (validate_manifest_route parse_any route installed
        (some 4)
        (codes "0.3.0")
        ManifestChannelPolicy.stable
      ≡ ok tt)
    ↔ IsValidRoute parse_any route installed (some 4) (codes "0.3.0") ManifestChannelPolicy.stable
validate_manifest_route-IsValidRoute_example =
    validate_manifest_route-IsValidRoute parse_any route installed (some 4) (codes "0.3.0")
      ManifestChannelPolicy.stable

newer : valid_version_transition (codes "0.2.0") (codes "0.3.0") ≡ true
unfolding valid_version_transition release_version semantic_version is_legacy_calendar_version
    Text-discrete ℕ_discrete split_once split parse_u64 parse_digits starts_with
newer = refl

newest : valid_version_transition (codes "0.3.0") (codes "1.0") ≡ true
unfolding valid_version_transition release_version semantic_version is_legacy_calendar_version
    Text-discrete ℕ_discrete split_once split parse_u64 parse_digits starts_with
newest = refl
