-- ===== src/Preflight/Plan/Canonical.antt =====
-- The plan does not depend on the order in which packages and changes were listed: the plan's hash is
-- taken over sorted lists (core/src/preflight.rs).
use mathlib.Core.List.{Perm}
use lyraos_desktop_updater.Prelude.{
  nat_eq, option_eq, text_list_eq, Text, text_eq, dedup, sort_texts, IsLawful,
  compare_text-IsLawful, compare-IsLawful, key-IsLawful, pair-IsLawful, compare_option-IsLawful,
  perm-sort_by-eq, ℕ, ◌≡◌, ap, Option, List, arith,
}
use lyraos_desktop_updater.Facts.{
  SolverResult, PreflightReport, HostFacts, PackageChange, InstalledPackage, PackageAction,
}
use lyraos_desktop_updater.Preflight.Plan.{
  ReleaseIdentity, OperationKind, assemble_plan, compare_change, build_plan, sort_installed,
  compare_installed, sort_changes, sort_unique_texts, action_rank,
}

abbrev InstalledKey : Type 0
InstalledKey = Text × (Text × (Text × Text))

abbrev installed_key : InstalledPackage → InstalledKey
installed_key p = (p.name, (p.version, (p.architecture, p.vendor)))

installed_key-injective : (a b : InstalledPackage) → installed_key a ≡ installed_key b → a ≡ b
installed_key-injective a b h = ground arith

compare_installed-IsLawful : IsLawful compare_installed
compare_installed-IsLawful =
    let t = compare_text-IsLawful in
    key-IsLawful (pair-IsLawful t (pair-IsLawful t (pair-IsLawful t t))) installed_key
      installed_key-injective

abbrev ChangeKey : Type 0
ChangeKey =
    Text
    × (Text
        × (ℕ
            × (Option Text
                × (Option Text × (Option Text × (Option Text × (Option Text × (ℕ × (ℕ × ℕ)))))))))

abbrev change_key : PackageChange → ChangeKey
change_key c = (
  c.name,
  (
    c.architecture,
    (
      action_rank c.action,
      (
        c.current_version,
        (
          c.proposed_version,
          (
            c.current_vendor,
            (
              c.proposed_vendor,
              (
                c.repository_alias,
                (c.download_bytes, (c.installed_size_before, c.installed_size_after)),
              ),
            ),
          ),
        ),
      ),
    ),
  ),
)

action_apart : (a b : PackageAction) → action_rank a ≡ action_rank b → a ≡ b
action_apart a b h = ground arith

change_key-injective : (a b : PackageChange) → change_key a ≡ change_key b → a ≡ b
change_key-injective a b h = ground (arith, action_apart a.action b.action)

compare_change-IsLawful : IsLawful compare_change
unfolding compare_change
compare_change-IsLawful =
    let t = compare_text-IsLawful in
    let o = compare_option-IsLawful compare_text-IsLawful in
    let n = compare-IsLawful in
    key-IsLawful
      (pair-IsLawful t (
        pair-IsLawful t (
          pair-IsLawful n (
            pair-IsLawful o (
              pair-IsLawful o (
                pair-IsLawful o
                  (pair-IsLawful o (pair-IsLawful o (pair-IsLawful n (pair-IsLawful n n))))))))))
      change_key change_key-injective

sort_installed-perm-eq :
    {xs ys : List InstalledPackage} → Perm xs ys → sort_installed xs ≡ sort_installed ys
unfolding sort_installed
sort_installed-perm-eq p = perm-sort_by-eq compare_installed-IsLawful (hlevel) p

sort_changes-perm-eq : {xs ys : List PackageChange} → Perm xs ys → sort_changes xs ≡ sort_changes ys
unfolding sort_changes
sort_changes-perm-eq p = perm-sort_by-eq compare_change-IsLawful (hlevel) p

sort_unique_texts-perm-eq :
    {xs ys : List Text} → Perm xs ys → sort_unique_texts xs ≡ sort_unique_texts ys
unfolding sort_unique_texts sort_texts
sort_unique_texts-perm-eq p = ap dedup (perm-sort_by-eq compare_text-IsLawful (hlevel) p)

-- `build_plan` gives the same answer when the installed packages, the changes and the repositories
-- with valid metadata are listed in another order.
pub build_plan-perm-eq :
    (op : OperationKind) (f : HostFacts) (report : PreflightReport)
    (target : Option ReleaseIdentity) (manifest : Option Text) (solver : SolverResult)
    (packages : List InstalledPackage) (changes : List PackageChange) (valid : List Text)
    → Perm packages f.installed_packages
    → Perm changes solver.changes
    → Perm valid solver.metadata_valid_repositories
    → build_plan op
        (record f { installed_packages = packages })
        report
        target
        manifest
        (record solver { changes = changes; metadata_valid_repositories = valid })
      ≡ build_plan op f report target manifest solver
unfolding build_plan assemble_plan
build_plan-perm-eq op f report target manifest solver packages changes valid p q r =
    simp (sort_installed-perm-eq p, sort_changes-perm-eq q, sort_unique_texts-perm-eq r)
