-- ===== src/Migration/Plan.antt =====
-- What a checked migration plan changes (core/src/migration.rs).
use lyraos_desktop_updater.Prelude.{
  nat_eq, option_eq, is_some, and_left, and_right, length, any, any-elim, contains, IsDistinct,
  pigeonhole, length-map, text_list_eq, Text, text_eq, Result, >>=-eq-ok, ok, ◌≡◌, refl, ap, subst,
  ◌⊎◌, true, false, not, ◌&&◌, some, List, [], ◌∷◌, map, Memᴰ, arith,
}
use lyraos_desktop_updater.Facts.{InstalledPackage, upgrade, reinstall, PackageChange}
use lyraos_desktop_updater.Release.{PackageMigration, ReleaseManifest}
use lyraos_desktop_updater.Migration.{
  MigrationError, validate_migration, EntryStep, skip, pend, refuse, after_step, entry_step,
  matching, pending_from, migrations, pending_migration, carries_out, changes_expected_from,
  check_changes, validate_migration_plan,
}

-- The installed packages of an entry's name, when the entry is pending: one, as the entry found it.
abbrev pub IsPending : PackageMigration → List InstalledPackage → Type 0
IsPending p [] = ⊥
IsPending p (current ∷ []) =
    (current.architecture ≡ p.architecture)
    × (current.version ≡ p.from_version)
    × (current.vendor ≡ p.from_vendor)
IsPending p (_ ∷ _ ∷ _) = ⊥

-- When nothing is to do: an optional package that is absent, or one that is already migrated.
abbrev pub IsSettled : PackageMigration → List InstalledPackage → Type 0
IsSettled p [] = p.if_installed ≡ true
IsSettled p (current ∷ []) =
    (current.architecture ≡ p.architecture)
    × (current.version ≡ p.to_version)
    × (current.vendor ≡ p.to_vendor)
IsSettled p (_ ∷ _ ∷ _) = ⊥

pend_lem :
    (p : PackageMigration) (found : List InstalledPackage)
    → entry_step p found ≡ pend
    → IsPending p found
unfolding entry_step
pend_lem p [] h = ground arith
pend_lem p (c ∷ []) h = ground arith
pend_lem p (c ∷ d ∷ r) h = cc

skip_lem :
    (p : PackageMigration) (found : List InstalledPackage)
    → entry_step p found ≡ skip
    → IsSettled p found
unfolding entry_step
skip_lem p [] h = ground arith
skip_lem p (c ∷ []) h = ground arith
skip_lem p (c ∷ d ∷ r) h = cc

-- Every entry is pending and listed, or settled and left out, in the manifest's order.
pub data Selected (installed : List InstalledPackage)
    : List PackageMigration → List PackageMigration → Type 0 where
  done : Selected installed [] []
  take_entry :
      {p : PackageMigration} {ps qs : List PackageMigration}
      → IsPending p (matching installed p.name)
      → Selected installed ps qs
      → Selected installed (p ∷ ps) (p ∷ qs)
  leave_entry :
      {p : PackageMigration} {ps qs : List PackageMigration}
      → IsSettled p (matching installed p.name)
      → Selected installed ps qs
      → Selected installed (p ∷ ps) qs

ok_inj : {E A : Type 0} {a b : A} → ◌≡◌ {A = Result E A} (ok a) (ok b) → a ≡ b
ok_inj h = cc

after_step-Selected :
    (installed : List InstalledPackage) (p : PackageMigration) (ps qs : List PackageMigration)
    (s : EntryStep) (rest : Result MigrationError (List PackageMigration))
    → entry_step p (matching installed p.name) ≡ s
    → ((found : List PackageMigration) → rest ≡ ok found → Selected installed ps found)
    → after_step s p rest ≡ ok qs
    → Selected installed (p ∷ ps) qs
after_step-Selected installed p ps qs skip rest e later h =
    leave_entry (skip_lem p _ e) (later qs h)
after_step-Selected installed p ps qs refuse rest e later h = cc
after_step-Selected installed p ps qs pend rest e later h =
    let (found, r, k) = >>=-eq-ok rest _ h in
    subst (Selected installed (p ∷ ps)) (ok_inj k) (take_entry (pend_lem p _ e) (later found r))

pending_from-Selected :
    (installed : List InstalledPackage) (ps qs : List PackageMigration)
    → pending_from installed ps ≡ ok qs
    → Selected installed ps qs
unfolding pending_from
pending_from-Selected installed [] qs h = subst (Selected installed []) (ok_inj h) done
pending_from-Selected installed (p ∷ ps) qs h =
    after_step-Selected installed p ps qs _ (pending_from installed ps) refl
      (pending_from-Selected installed ps) h

-- When `pending_migration` answers, the policy is valid, and the answer lists exactly the entries
-- whose package is installed once, in the version and from the vendor that the entry starts from; each
-- other entry's package is optional and absent, or already has the entry's target.
pub pending_migration-Selected :
    (m : ReleaseManifest) (installed : List InstalledPackage) (qs : List PackageMigration)
    → pending_migration m installed ≡ ok qs
    → (validate_migration m ≡ ok tt) × Selected installed (migrations m) qs
unfolding pending_migration
pending_migration-Selected m installed qs h =
    let (u, valid, rest) = >>=-eq-ok (validate_migration m) _ h in
    (valid, pending_from-Selected installed (migrations m) qs rest)

abbrev pub names : List PackageChange → List Text
names changes = map (λ c. c.name) changes

-- The change replaces exactly the package of the entry, by its target, from its repository.
pub record CarriesOut (c : PackageChange) (p : PackageMigration) : Type 0 where
  pub same_name : c.name ≡ p.name
  pub same_architecture : c.architecture ≡ p.architecture
  pub replaces : (c.action ≡ upgrade) ⊎ (c.action ≡ reinstall)
  pub from_version : c.current_version ≡ some p.from_version
  pub from_vendor : c.current_vendor ≡ some p.from_vendor
  pub to_version : c.proposed_version ≡ some p.to_version
  pub to_vendor : c.proposed_vendor ≡ some p.to_vendor
  pub repository : c.repository_alias ≡ some p.repository_alias

carries_out-CarriesOut :
    (c : PackageChange) (p : PackageMigration) → carries_out c p ≡ true → CarriesOut c p
unfolding carries_out
carries_out-CarriesOut c p h = ground arith

abbrev pub AllExpected : List PackageMigration → List PackageChange → Type 0
AllExpected pending [] = Unit
AllExpected pending (c ∷ cs) =
    ((p : PackageMigration) × Memᴰ p pending × CarriesOut c p) × AllExpected pending cs

-- Names that are new against `seen`, one after the other.
abbrev NewNames : List Text → List PackageChange → Type 0
NewNames seen [] = Unit
NewNames seen (c ∷ cs) = (contains seen c.name ≡ false) × NewNames (c.name ∷ seen) cs

expected_lem :
    (seen : List Text) (pending : List PackageMigration) (cs : List PackageChange)
    → changes_expected_from seen pending cs ≡ true
    → NewNames seen cs × AllExpected pending cs
unfolding changes_expected_from
expected_lem seen pending [] h = (tt, tt)
expected_lem seen pending (c ∷ cs) h =
    let head = and_left (not (contains seen c.name) && any (carries_out c) pending) _ h in
    let (p, m, e) =
      any-elim (carries_out c) pending (and_right (not (contains seen c.name)) _ head) in
    let (new, rest) =
      expected_lem (c.name ∷ seen) pending cs
        (and_right (not (contains seen c.name) && any (carries_out c) pending) _ h) in
    ((ground arith, new), ((p, m, carries_out-CarriesOut c p e), rest))

NewNames-fresh :
    (seen : List Text) (cs : List PackageChange) (z : Text)
    → NewNames seen cs
    → contains seen z ≡ true
    → contains (names cs) z ≡ false
NewNames-fresh seen [] z n h = refl
NewNames-fresh seen (c ∷ cs) z (new, rest) h =
    ground (arith, NewNames-fresh (c.name ∷ seen) cs z rest)

NewNames-IsDistinct :
    (seen : List Text) (cs : List PackageChange) → NewNames seen cs → IsDistinct (names cs)
NewNames-IsDistinct seen [] n = tt
NewNames-IsDistinct seen (c ∷ cs) (new, rest) = (
  NewNames-fresh (c.name ∷ seen) cs c.name rest (ground arith),
  NewNames-IsDistinct (c.name ∷ seen) cs rest,
)

abbrev pub migrated_names : List PackageMigration → List Text
migrated_names ps = map (λ p. p.name) ps

Memᴰ-migrated_names :
    (ps : List PackageMigration) {p : PackageMigration}
    → Memᴰ p ps
    → contains (migrated_names ps) p.name ≡ true
Memᴰ-migrated_names [] m = elim m [ ]
Memᴰ-migrated_names (q ∷ qs) (Memᴰ.head e) = let same = ap (λ r. r.name) e in ground arith
Memᴰ-migrated_names (q ∷ qs) (Memᴰ.tail m) = ground (arith, Memᴰ-migrated_names qs m)

AllExpected-names :
    (pending : List PackageMigration) (cs : List PackageChange)
    → AllExpected pending cs
    → (z : Text) → contains (names cs) z ≡ true
    → contains (migrated_names pending) z ≡ true
AllExpected-names pending [] a z h = cc
AllExpected-names pending (c ∷ cs) ((p, m, e), rest) z h =
    ground (arith, e.same_name, Memᴰ-migrated_names pending m, AllExpected-names pending cs rest z)

-- What a checked plan of changes is: every change carries out a pending entry, no package is changed
-- twice, and every pending entry is carried out.
pub record IsExactPlan (pending : List PackageMigration) (changes : List PackageChange)
    : Type 0 where
  pub expected : AllExpected pending changes
  pub distinct : IsDistinct (names changes)
  pub complete :
      (name : Text)
      → contains (migrated_names pending) name ≡ true
      → contains (names changes) name ≡ true

check_changes-IsExactPlan :
    (pending : List PackageMigration) (changes : List PackageChange)
    → check_changes pending changes ≡ ok tt
    → IsExactPlan pending changes
unfolding check_changes
check_changes-IsExactPlan pending changes h =
    let same_length : length changes ≡ length pending = ground arith in
    let (new, expected) = expected_lem [] pending changes (ground arith) in
    let distinct = NewNames-IsDistinct [] changes new in
    record {
      expected = expected;
      distinct = distinct;
      complete =
          pigeonhole (names changes) (migrated_names pending) distinct
            (AllExpected-names pending changes expected)
            (omega (
              arith,
              length-map (λ (c : PackageChange). c.name) changes,
              length-map (λ (p : PackageMigration). p.name) pending,
              same_length,
            ));
    }

-- If a migration's plan is accepted, the changes are exactly its pending entries: each change carries
-- out one of them, none is left out, and no package is changed twice.
pub validate_migration_plan-IsExactPlan :
    (m : ReleaseManifest) (installed : List InstalledPackage) (changes : List PackageChange)
    → is_some m.package_migrations ≡ true
    → validate_migration_plan m installed changes ≡ ok tt
    → (pending : List PackageMigration) × (pending_migration m installed ≡ ok pending)
      × IsExactPlan pending changes
unfolding validate_migration_plan
validate_migration_plan-IsExactPlan m installed changes s h =
    let (pending, found, checked) =
      >>=-eq-ok (pending_migration m installed) (λ pending. check_changes pending changes)
        (ground arith) in
    (pending, found, check_changes-IsExactPlan pending changes checked)
