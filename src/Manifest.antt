-- ===== src/Manifest.antt =====
-- core/src/manifest.rs: whether a signed release manifest applies to this host. The crate `url` is a
-- parameter: what its parser returns for a text.
pub mod Version
pub mod Route
use lyraos_desktop_updater.Prelude.{
  ltb, leb, if◌then◌else◌, Eq, ◌==◌, ◌!=◌, nat_eq, option_dec, option_eq, is_some, is_none,
  is_some_and, length, is_empty, any, all, contains, unique, Text-discrete, text_list_eq, bytes,
  byte_len, is_whitespace, Text, codes, text_eq, is_ascii_lower, is_ascii_alphanumeric,
  is_ascii_hexdigit, Result, ◌>>=◌, ◌>>◌, fail_if, ok_or, map_err, ok, ℕ, Bool, not, ◌&&◌, ◌||◌,
  Option, some, List, [], ◌∷◌, arith, ℕ_discrete,
}
use lyraos_desktop_updater.Domain.{ReleaseIdentity, release_eq, ReleaseIdentity-discrete}
use lyraos_desktop_updater.Facts.{SolverPolicy}
use lyraos_desktop_updater.Solver.{valid_package, valid_vendor_transitions}
use lyraos_desktop_updater.Release.{
  ManifestStatus, ManifestChannelPolicy, RepositoryTransition, VendorTransitionWire,
  ReleaseManifest, solver_policy, status_eq, channel_eq, ManifestStatus-discrete,
  ManifestChannelPolicy-discrete,
}
use lyraos_desktop_updater.Migration.{MigrationError, validate_migration}
use lyraos_desktop_updater.Manifest.Version.{
  Triple, lt_triple, semantic_version, is_prerelease, valid_version_transition,
}

pub data ManifestError : Type 0 where
  unsupported_schema not_available prerelease_not_allowed source_mismatch : ManifestError
  target_not_newer unsupported_target replay migration_already_applied : ManifestError
  invalid_minimum_updater_version updater_too_old invalid_repository : ManifestError
  duplicate_repository invalid_fingerprint invalid_policy : ManifestError

-- What `url::Url::parse` returns, in the parts that are read.
pub record Url : Type 0 where
  pub scheme : Text
  pub host : Option Text
  pub username : Text
  pub password : Option Text
  pub query : Option Text
  pub fragment : Option Text

abbrev build_id_byte : ℕ → Bool
build_id_byte b = is_ascii_alphanumeric b || b == b'.' || b == b'-' || b == b'_'

unfoldable pub valid_build_id : Text → Bool
unfolding ℕ_discrete bytes
valid_build_id value = not (is_empty value) && all build_id_byte (bytes value)

abbrev alias_byte : ℕ → Bool
alias_byte b = is_ascii_alphanumeric b || b == b'.' || b == b'-' || b == b'_' || b == b':'

unfoldable pub valid_alias : Text → Bool
unfolding ℕ_discrete bytes
valid_alias value = not (is_empty value) && all alias_byte (bytes value)

abbrev upper_hex_byte : ℕ → Bool
upper_hex_byte b = is_ascii_hexdigit b && not (is_ascii_lower b)

unfoldable pub valid_fingerprint : Text → Bool
unfolding ℕ_discrete byte_len
valid_fingerprint value = byte_len value == 40 && all upper_hex_byte (bytes value)

-- A group of at least two valid names, none twice.
unfoldable pub valid_group : List Text → Bool
unfolding Text-discrete ℕ_discrete
valid_group group =
    leb 2 (length group) && (all valid_package group && length (unique group) == length group)

-- `Available`, or `Testing` on the testing channel.
unfoldable pub status_allowed : ManifestStatus → ManifestChannelPolicy → Bool
unfolding ManifestStatus-discrete ManifestChannelPolicy-discrete
status_allowed status channel =
    status == ManifestStatus.available
    || status == ManifestStatus.testing && channel == ManifestChannelPolicy.testing

unfoldable pub target_supported : ReleaseIdentity → Bool
unfolding Text-discrete
target_supported target =
    target.edition == codes "desktop"
    && (target.architecture == codes "x86_64" && valid_build_id target.build_id)

unfoldable pub check_target : ReleaseManifest → ReleaseIdentity → Result ManifestError (Unit {0})
check_target m installed =
    if is_some m.package_migrations
    then map_err (λ _. invalid_policy) (validate_migration m)
    else fail_if (not (valid_version_transition installed.version m.target.version))
        target_not_newer

unfoldable pub check_sequence : ReleaseManifest → Option ℕ → Result ManifestError (Unit {0})
unfolding ℕ_discrete
check_sequence m last = do
  fail_if (ltb 0 m.sequence && (is_some m.package_migrations && last == some m.sequence))
      migration_already_applied
  fail_if (m.sequence == 0 || is_some_and last (λ sequence. leb m.sequence sequence)) replay

abbrev pub names_packages : VendorTransitionWire → Bool
names_packages rule = is_some rule.packages

abbrev pub triple : ℕ → ℕ → ℕ → Triple
triple a b c = (a, b, c)

unfoldable pub check_updater : ReleaseManifest → Text → Result ManifestError (Unit {0})
check_updater m updater_version = do
  minimum ← ok_or (semantic_version m.minimum_updater_version) invalid_minimum_updater_version
  current ← ok_or (semantic_version updater_version) invalid_minimum_updater_version
  fail_if (lt_triple current minimum) updater_too_old
  fail_if (is_some m.package_migrations && lt_triple minimum (triple 0 2 7))
      invalid_minimum_updater_version
  fail_if (any names_packages m.allowed_vendor_transitions && lt_triple minimum (triple 0 2 6))
      invalid_minimum_updater_version

unfoldable pub check_policy : ReleaseManifest → Result ManifestError (Unit {0})
unfolding ℕ_discrete
check_policy m =
    let policy = solver_policy m in
    fail_if
      (not (valid_vendor_transitions policy.allowed_vendor_transitions)
        || (m.minimum_free_space_bytes == 0
            || (any (λ name. not (valid_package name)) m.allowed_removals
                || any (λ group. not (valid_group group)) m.lockstep_packages)))
      invalid_policy

module _ (parse_url : Text → Option Url) where
  unfoldable pub valid_https_url : Text → Bool
  unfolding Text-discrete is_whitespace
  valid_https_url value =
      not (any is_whitespace value)
      && is_some_and (parse_url value) (λ url.
        url.scheme == codes "https"
        && (is_some url.host
            && (is_empty url.username
                && (is_none url.password && (is_none url.query && is_none url.fragment)))))

  unfoldable pub repository_usable : RepositoryTransition → Bool
  repository_usable r =
      valid_alias r.alias
      && (valid_https_url r.base_url
          && (valid_https_url r.signing_key_url && (leb 1 r.priority && leb r.priority 200)))

  -- The loop over the repositories, with the set of aliases seen.
  unfoldable pub check_repositories :
      List Text → List RepositoryTransition → Result ManifestError (Unit {0})
  unfolding Text-discrete
  check_repositories aliases [] = ok tt
  check_repositories aliases (r ∷ rs) = do
    fail_if (not (repository_usable r)) invalid_repository
    fail_if (contains aliases r.alias) duplicate_repository
    fail_if (not (valid_fingerprint r.signing_key_fingerprint)) invalid_fingerprint
    check_repositories (r.alias ∷ aliases) rs

  unfoldable pub validate_manifest_route :
      ReleaseManifest
      → ReleaseIdentity
      → Option ℕ
      → Text
      → ManifestChannelPolicy
      → Result ManifestError (Unit {0})
  unfolding ℕ_discrete ReleaseIdentity-discrete ManifestChannelPolicy-discrete
  validate_manifest_route m installed last updater_version channel = do
    fail_if (m.schema_version != 1) unsupported_schema
    fail_if (not (status_allowed m.status channel)) not_available
    fail_if (m.source != installed) source_mismatch
    fail_if (not (target_supported m.target)) unsupported_target
    check_target m installed
    fail_if (is_prerelease m.target.version && channel != ManifestChannelPolicy.testing)
        prerelease_not_allowed
    check_sequence m last
    check_updater m updater_version
    fail_if (is_empty m.repositories) invalid_repository
    check_repositories [] m.repositories
    check_policy m
