-- ===== src/Migration.antt =====
-- core/src/migration.rs: exact, signed package maintenance within one release.
pub mod Plan
use lyraos_desktop_updater.Prelude.{
  leb, if◌then◌else◌, Eq, ◌==◌, ◌!=◌, nat_eq, option_dec, option_eq, is_none, is_some_and, length,
  is_empty, any, all, keep, contains, Text-discrete, text_list_eq, bytes, byte_len, Text, codes,
  text_eq, is_ascii_digit, is_ascii_alphanumeric, Result, ◌>>=◌, ◌>>◌, fail_if, ok, err, ℕ, Bool,
  true, false, not, ◌&&◌, ◌||◌, none, some, List, [], ◌∷◌, arith, ℕ_discrete,
}
use lyraos_desktop_updater.Domain.{ReleaseIdentity, release_eq, ReleaseIdentity-discrete}
use lyraos_desktop_updater.Facts.{
  InstalledPackage, PackageAction, install, upgrade, downgrade, remove, reinstall, PackageChange,
}
use lyraos_desktop_updater.Solver.{valid_package, valid_vendor}
use lyraos_desktop_updater.Release.{
  RepositoryTransition, PackageMigration, VendorTransitionWire, ReleaseManifest,
}

pub data MigrationError : Type 0 where
  invalid_policy unexpected_transaction already_applied : MigrationError
  installed_identity : Text → MigrationError

abbrev edition_byte : ℕ → Bool
edition_byte b = is_ascii_alphanumeric b || contains (codes "._:+~^-") b

abbrev first_is : (ℕ → Bool) → List ℕ → Bool
first_is p [] = false
first_is p (b ∷ bs) = p b

-- The closure `edition`: the text of an RPM version.
unfoldable pub valid_edition : Text → Bool
unfolding byte_len ℕ_discrete
valid_edition value =
    not (is_empty value)
    && (leb (byte_len value) 256
        && (first_is is_ascii_alphanumeric (bytes value) && all edition_byte (bytes value)))

abbrev lower_hex_byte : ℕ → Bool
lower_hex_byte b = is_ascii_digit b || leb b'a' b && leb b b'f'

unfoldable pub valid_sha256 : Text → Bool
unfolding byte_len ℕ_discrete
valid_sha256 hash = byte_len hash == 64 && all lower_hex_byte (bytes hash)

-- `packages[0].repository_alias`, read only while the list is not empty.
abbrev pub first_alias : List PackageMigration → Text
first_alias [] = []
first_alias (p ∷ _) = p.repository_alias

-- The test of one entry of the list, but for its name's repetition.
unfoldable pub entry_valid : List RepositoryTransition → Text → PackageMigration → Bool
unfolding Text-discrete
entry_valid repositories alias p =
    valid_package p.name
    && ((p.architecture == codes "x86_64" || p.architecture == codes "noarch")
        && (valid_edition p.from_version
            && (valid_edition p.to_version
                && (valid_vendor p.from_vendor
                    && (valid_vendor p.to_vendor
                        && (p.from_version != p.to_version
                            && (valid_sha256 p.sha256
                                && (any (λ r. r.alias == p.repository_alias) repositories
                                    && p.repository_alias == alias))))))))

-- The `any` over the entries, with the set `names` that its closure fills.
unfoldable pub entries_valid_from :
    List Text → List RepositoryTransition → Text → List PackageMigration → Bool
unfolding Text-discrete
entries_valid_from names repositories alias [] = true
entries_valid_from names repositories alias (p ∷ ps) =
    (entry_valid repositories alias p && not (contains names p.name))
    && entries_valid_from (p.name ∷ names) repositories alias ps

-- The vendor move of one migrated package.
unfoldable pub is_move_of : VendorTransitionWire → Text → PackageMigration → Bool
unfolding Text-discrete
is_move_of rule name p = p.name == name && (p.from_vendor == rule.from && p.to_vendor == rule.to)

-- A vendor rule names packages, and only such as are migrated between its vendors.
unfoldable pub rule_covered : List PackageMigration → VendorTransitionWire → Bool
rule_covered packages rule =
    is_some_and rule.packages (λ scope. all (λ name. any (is_move_of rule name) packages) scope)

unfoldable pub validate_packages : ReleaseManifest → List PackageMigration → Bool
unfolding ReleaseIdentity-discrete
validate_packages m packages =
    m.source == m.target
    && (not (is_empty packages)
        && (leb (length packages) 64
            && (not (all (λ p. p.if_installed) packages)
                && (is_empty m.allowed_removals
                    && (is_empty m.lockstep_packages
                        && (entries_valid_from [] m.repositories (first_alias packages) packages
                            && all (rule_covered packages) m.allowed_vendor_transitions))))))

unfoldable pub validate_migration : ReleaseManifest → Result MigrationError (Unit {0})
validate_migration m = elim m.package_migrations [
  | none ↦ ok tt
  | some packages ↦ fail_if (not (validate_packages m packages)) invalid_policy
]

-- What one entry asks of the installed packages.
pub data EntryStep : Type 0 where
  skip pend refuse : EntryStep

unfoldable pub entry_step : PackageMigration → List InstalledPackage → EntryStep
unfolding Text-discrete
entry_step p [] = if p.if_installed then skip else refuse
entry_step p (current ∷ []) =
    if current.architecture != p.architecture
    then refuse
    else if current.version == p.to_version && current.vendor == p.to_vendor
    then skip
    else if current.version != p.from_version || current.vendor != p.from_vendor
    then refuse
    else pend
entry_step p (_ ∷ _ ∷ _) = refuse

abbrev pub matching : List InstalledPackage → Text → List InstalledPackage
matching installed name = keep (λ p. p.name == name) installed

-- How an entry's answer goes before the result for the entries behind it.
abbrev pub after_step :
    EntryStep
    → PackageMigration
    → Result MigrationError (List PackageMigration)
    → Result MigrationError (List PackageMigration)
after_step skip p rest = rest
after_step refuse p rest = err (installed_identity p.name)
after_step pend p rest = rest >>= (λ pending. ok (p ∷ pending))

-- The loop of `pending_migration`.
unfoldable pub pending_from :
    List InstalledPackage → List PackageMigration → Result MigrationError (List PackageMigration)
pending_from installed [] = ok []
pending_from installed (p ∷ ps) =
    after_step (entry_step p (matching installed p.name)) p (pending_from installed ps)

abbrev pub migrations : ReleaseManifest → List PackageMigration
migrations m = elim m.package_migrations [ none ↦ [] | some packages ↦ packages ]

unfoldable pub pending_migration :
    ReleaseManifest → List InstalledPackage → Result MigrationError (List PackageMigration)
pending_migration m installed = do validate_migration m; pending_from installed (migrations m)

abbrev is_replacement : PackageAction → Bool
is_replacement upgrade = true
is_replacement reinstall = true
is_replacement _ = false

-- The change carries out exactly this entry.
unfoldable pub carries_out : PackageChange → PackageMigration → Bool
unfolding Text-discrete
carries_out change p =
    change.name == p.name
    && (change.architecture == p.architecture
        && (is_replacement change.action
            && (change.current_version == some p.from_version
                && (change.current_vendor == some p.from_vendor
                    && (change.proposed_version == some p.to_version
                        && (change.proposed_vendor == some p.to_vendor
                            && change.repository_alias == some p.repository_alias))))))

-- The `any` over the changes, with the set `seen` that its closure fills.
unfoldable pub changes_expected_from : List Text → List PackageMigration → List PackageChange → Bool
unfolding Text-discrete
changes_expected_from seen pending [] = true
changes_expected_from seen pending (change ∷ changes) =
    (not (contains seen change.name) && any (carries_out change) pending)
    && changes_expected_from (change.name ∷ seen) pending changes

unfoldable pub check_changes :
    List PackageMigration → List PackageChange → Result MigrationError (Unit {0})
unfolding ℕ_discrete
check_changes pending changes =
    fail_if (length changes != length pending || not (changes_expected_from [] pending changes))
      unexpected_transaction

unfoldable pub validate_migration_plan :
    ReleaseManifest → List InstalledPackage → List PackageChange → Result MigrationError (Unit {0})
validate_migration_plan m installed changes =
    if is_none m.package_migrations
    then ok tt
    else pending_migration m installed >>= (λ pending. check_changes pending changes)
