-- ===== src/Manifest/Route.antt =====
-- Which manifests `validate_manifest_route` lets through (core/src/manifest.rs).
use lyraos_desktop_updater.Prelude.{
  nat_eq, option_eq, is_some, Bool-cases, is_empty, any, contains, text_list_eq, Text, text_eq, ok,
  ℕ, ◌<◌, ◌≡◌, refl, ◌↔◌, ◌⊎◌, inl, inr, true, false, not, Option, none, some, List, [], ◌∷◌, arith,
}
use lyraos_desktop_updater.Domain.{ReleaseIdentity}
use lyraos_desktop_updater.Solver.{valid_package, valid_vendor_transitions}
use lyraos_desktop_updater.Release.{
  ManifestChannelPolicy, RepositoryTransition, ReleaseManifest, solver_policy,
}
use lyraos_desktop_updater.Migration.{validate_migration}
use lyraos_desktop_updater.Manifest.Version.{
  Triple, lt_triple, semantic_version, is_prerelease, valid_version_transition,
}
use lyraos_desktop_updater.Manifest.{
  Url, valid_fingerprint, valid_group, status_allowed, target_supported, check_target,
  check_sequence, check_updater, check_policy, names_packages, triple, repository_usable,
  check_repositories, validate_manifest_route,
}

-- Either a valid migration within the release, or a transition to a newer version.
abbrev pub HasValidTarget : ReleaseManifest → ReleaseIdentity → Type 0
HasValidTarget m installed =
    ((is_some m.package_migrations ≡ true) × (validate_migration m ≡ ok tt))
    ⊎ ((is_some m.package_migrations ≡ false)
        × (valid_version_transition installed.version m.target.version ≡ true))

-- The sequence is above 0 and above the last one that was applied.
abbrev pub IsNewer : ℕ → Option ℕ → Type 0
IsNewer sequence none = 0 < sequence
IsNewer sequence (some last) = last < sequence

check_target_lem :
    (m : ReleaseManifest) (installed : ReleaseIdentity)
    → (check_target m installed ≡ ok tt) ↔ HasValidTarget m installed
unfolding check_target
check_target_lem m installed = (
  λ h. elim (Bool-cases (is_some m.package_migrations)) [
    | inl e ↦ inl (e, ground arith)
    | inr e ↦ inr (e, ground arith)
  ],
  λ h. ground arith,
)

check_sequence_lem :
    (m : ReleaseManifest) (last : Option ℕ)
    → (check_sequence m last ≡ ok tt) ↔ IsNewer m.sequence last
unfolding check_sequence
check_sequence_lem m none = (λ h. ground arith, λ h. ground arith)
check_sequence_lem m (some last) = (λ h. ground arith, λ h. ground arith)

-- The updater is new enough for the manifest, and the manifest's demand is high enough for the
-- features that it uses.
abbrev pub SuitsUpdater : ReleaseManifest → Option Triple → Option Triple → Type 0
SuitsUpdater m (some minimum) (some current) =
    (lt_triple current minimum ≡ false)
    × ((is_some m.package_migrations ≡ false) ⊎ (lt_triple minimum (triple 0 2 7) ≡ false))
    × ((any names_packages m.allowed_vendor_transitions ≡ false)
        ⊎ (lt_triple minimum (triple 0 2 6) ≡ false))
SuitsUpdater m _ _ = ⊥

check_updater_lem :
    (m : ReleaseManifest) (updater : Text)
    → (check_updater m updater ≡ ok tt)
      ↔ SuitsUpdater m (semantic_version m.minimum_updater_version) (semantic_version updater)
unfolding check_updater
check_updater_lem m updater = (λ h. ground arith, λ h. ground arith)

module _ (parse_url : Text → Option Url) where
  -- Every repository is usable, its key's fingerprint is well formed, and no alias stands twice.
  abbrev pub AllUsable : List Text → List RepositoryTransition → Type 0
  AllUsable aliases [] = Unit
  AllUsable aliases (r ∷ rs) =
      (repository_usable parse_url r ≡ true)
      × (contains aliases r.alias ≡ false)
      × (valid_fingerprint r.signing_key_fingerprint ≡ true)
      × AllUsable (r.alias ∷ aliases) rs

  check_repositories_lem :
      (aliases : List Text) (rs : List RepositoryTransition)
      → (check_repositories parse_url aliases rs ≡ ok tt) ↔ AllUsable aliases rs
  unfolding check_repositories
  check_repositories_lem aliases [] = (λ _. tt, λ _. refl)
  check_repositories_lem aliases (r ∷ rs) =
      let rest = check_repositories_lem (r.alias ∷ aliases) rs in
      (λ h. ground (arith, rest.0), λ h. ground (arith, rest.1))

-- What the release's policy must be, beside the vendor rules.
abbrev pub IsValidPolicy : ReleaseManifest → Type 0
IsValidPolicy m =
    (valid_vendor_transitions (solver_policy m).allowed_vendor_transitions ≡ true)
    × (0 < m.minimum_free_space_bytes)
    × (any (λ name. not (valid_package name)) m.allowed_removals ≡ false)
    × (any (λ group. not (valid_group group)) m.lockstep_packages ≡ false)

check_policy_lem : (m : ReleaseManifest) → (check_policy m ≡ ok tt) ↔ IsValidPolicy m
unfolding check_policy
check_policy_lem m = (λ h. ground arith, λ h. ground arith)

-- A manifest that applies to the installed release, for this updater, channel and history.
pub record IsValidRoute (parse_url : Text → Option Url) (m : ReleaseManifest)
    (installed : ReleaseIdentity) (last : Option ℕ) (updater : Text)
    (channel : ManifestChannelPolicy) : Type 0 where
  pub schema : m.schema_version ≡ 1
  pub status : status_allowed m.status channel ≡ true
  pub source : m.source ≡ installed
  pub supported : target_supported m.target ≡ true
  pub target : HasValidTarget m installed
  pub prerelease :
      (is_prerelease m.target.version ≡ false) ⊎ (channel ≡ ManifestChannelPolicy.testing)
  pub newer : IsNewer m.sequence last
  pub suits : SuitsUpdater m (semantic_version m.minimum_updater_version) (semantic_version updater)
  pub repositories_listed : is_empty m.repositories ≡ false
  pub repositories : AllUsable parse_url [] m.repositories
  pub policy : IsValidPolicy m

-- `validate_manifest_route` accepts a manifest exactly when it is a valid route.
pub validate_manifest_route-IsValidRoute :
    (parse_url : Text → Option Url) (m : ReleaseManifest) (installed : ReleaseIdentity)
    (last : Option ℕ) (updater : Text) (channel : ManifestChannelPolicy)
    → (validate_manifest_route parse_url m installed last updater channel ≡ ok tt)
      ↔ IsValidRoute parse_url m installed last updater channel
unfolding validate_manifest_route
validate_manifest_route-IsValidRoute parse_url m installed last updater channel =
    let target = check_target_lem m installed in
    let sequence = check_sequence_lem m last in
    let suits = check_updater_lem m updater in
    let repositories = check_repositories_lem parse_url [] m.repositories in
    let policy = check_policy_lem m in
    (
      λ h. record {
        schema = ground arith;
        status = ground arith;
        source = ground arith;
        supported = ground arith;
        target = target.0 (ground arith);
        prerelease = ground arith;
        newer = sequence.0 (ground arith);
        suits = suits.0 (ground arith);
        repositories_listed = ground arith;
        repositories = repositories.0 (ground arith);
        policy = policy.0 (ground arith);
      },
      λ v.
          rw
            (
              target.1 v.target,
              sequence.1 v.newer,
              suits.1 v.suits,
              repositories.1 v.repositories,
              policy.1 v.policy,
            )
            (ground (
              arith, v.schema, v.status, v.source, v.supported, v.prerelease, v.repositories_listed,
            )),
    )
