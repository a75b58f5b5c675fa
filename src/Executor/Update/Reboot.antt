-- ===== src/Executor/Update/Reboot.antt =====
-- When an update asks for a reboot (service/src/executor.rs).
use lyraos_desktop_updater.Prelude.{
  nat_eq, option_eq, ==_iff, any, any-Memᴰ, any-elim, text_list_eq, starts_with, Text, codes,
  text_eq, ◌≡◌, refl, sym, subst, ◌↔◌, ◌⊎◌, true, some, [], ◌∷◌, ◌++◌, Memᴰ, arith,
}
use lyraos_desktop_updater.Facts.{PackageChange}
use lyraos_desktop_updater.Executor.Update.{
  fresh_changes, FreshPlan, UpdateHost, is_boot_package, touches_boot, reboot_required,
}

-- A kernel's package, or one of those that the boot is made of.
abbrev pub IsBootPackage : Text → Type 0
IsBootPackage name =
    ((rest : Text) × (name ≡ codes "kernel-" ++ rest))
    ⊎ (name ≡ codes "dracut")
    ⊎ (name ≡ codes "shim")
    ⊎ (name ≡ codes "grub2")
    ⊎ (name ≡ codes "grub2-x86_64-efi")

-- The plan asks for it, or the transaction, by its exit code 102, or a package of the boot changes.
abbrev pub NeedsReboot : UpdateHost → FreshPlan → Type 0
NeedsReboot w fresh =
    (fresh.reboot_required ≡ true)
    ⊎ (w.apply_code ≡ some 102)
    ⊎ ((change : PackageChange) × Memᴰ change fresh.changes × IsBootPackage change.name)

starts_with_lem : (s p : Text) → (starts_with s p ≡ true) ↔ ((rest : Text) × (s ≡ p ++ rest))
unfolding starts_with
starts_with_lem s [] = (λ h. (s, refl), λ h. refl)
starts_with_lem [] (c ∷ p) = (λ h. cc, λ h. cc)
starts_with_lem (a ∷ s) (c ∷ p) =
    let rest = starts_with_lem s p in
    let same = ==_iff a c in
    (
      λ h. let (r, e) = rest.0 (ground arith) in let e' = same.0 (ground arith) in (r, cc),
      λ (r, e).
          let head : a ≡ c = ground arith in
          let tail : s ≡ p ++ r = ground arith in
          let t = rest.1 (r, tail) in let h = same.1 head in ground arith,
    )

is_boot_package-IsBootPackage : (name : Text) → (is_boot_package name ≡ true) ↔ IsBootPackage name
unfolding is_boot_package
is_boot_package-IsBootPackage name =
    let kernel = starts_with_lem name (codes "kernel-") in
    let dracut = ==_iff (codes "dracut") name in
    let shim = ==_iff (codes "shim") name in
    let grub = ==_iff (codes "grub2") name in
    let efi = ==_iff (codes "grub2-x86_64-efi") name in (λ h. ground arith, λ h. ground arith)

touches_boot-IsBootPackage :
    (w : UpdateHost) (fresh : FreshPlan)
    → w.fresh ≡ some fresh
    → (touches_boot w ≡ true)
      ↔ ((change : PackageChange) × Memᴰ change fresh.changes × IsBootPackage change.name)
unfolding touches_boot
touches_boot-IsBootPackage w fresh found = (
  λ h.
      let here : any (λ c. is_boot_package c.name) fresh.changes ≡ true =
        subst (λ f. any (λ c. is_boot_package c.name) (fresh_changes f) ≡ true) found h in
      let (change, m, e) =
        any-elim (λ (c : PackageChange). is_boot_package c.name) fresh.changes here in
      (change, m, (is_boot_package-IsBootPackage change.name).0 e),
  λ (change, m, b).
      subst (λ f. any (λ c. is_boot_package c.name) (fresh_changes f) ≡ true) (sym found)
        (any-Memᴰ (λ (c : PackageChange). is_boot_package c.name) fresh.changes m
          ((is_boot_package-IsBootPackage change.name).1 b)),
)

pub reboot_required-NeedsReboot :
    (w : UpdateHost) (fresh : FreshPlan)
    → w.fresh ≡ some fresh
    → (reboot_required w ≡ true) ↔ NeedsReboot w fresh
unfolding reboot_required
reboot_required-NeedsReboot w fresh found =
    let boot = touches_boot-IsBootPackage w fresh found in
    let code = ==_iff w.apply_code (some 102) in (λ h. ground arith, λ h. ground arith)
