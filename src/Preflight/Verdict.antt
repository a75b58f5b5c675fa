-- ===== src/Preflight/Verdict.antt =====
-- When the host passes, and the shape of the report (core/src/preflight.rs).
use lyraos_desktop_updater.Prelude.{
  leb, ◌==◌, nat_eq, option_eq, u64_max, is_some, is_none, Bool-cases, is_empty, any,
  is_empty-append, any-is_empty, contains, text_list_eq, codes, text_eq, sort_by, IsLawful,
  compare_text-IsLawful, compare-IsLawful, IsStrict, any-sort_by, any-dedup, dedup-sort_by-IsStrict,
  then_by-IsLawful, ℕ, ◌+◌, ◌≤◌, ◌<◌, ◌≡◌, refl, sym, ◌∙◌, ◌↔◌, ◌⊎◌, inl, inr, Bool, true, false,
  not, ◌&&◌, Option, none, some, List, [], ◌∷◌, arith,
}
use lyraos_desktop_updater.Facts.{
  RepositoryFact, HostFacts, StorageFacts, PreflightPolicy, PreflightIssue, passed,
}
use lyraos_desktop_updater.Preflight.{
  issue_rank, issue_text, compare_issue, issue_eq, sort_issues, storage_blockers, host_blockers,
  required_bytes, battery_blockers, repository_blockers, found_blockers, evaluate_preflight,
}

compare_issue_apart :
    (a b : PreflightIssue) → issue_rank a ≡ issue_rank b → issue_text a ≡ issue_text b → a ≡ b
compare_issue_apart a b h k = ground arith

pub compare_issue-IsLawful : IsLawful compare_issue
compare_issue-IsLawful =
    then_by-IsLawful compare-IsLawful compare_text-IsLawful issue_rank issue_text
      compare_issue_apart

pub any-sort_issues :
    (p : PreflightIssue → Bool) (xs : List PreflightIssue) → any p (sort_issues xs) ≡ any p xs
unfolding sort_issues
any-sort_issues p xs = any-dedup p (sort_by compare_issue xs) ∙ any-sort_by compare_issue p xs

pub is_empty-sort_issues : (xs : List PreflightIssue) → is_empty (sort_issues xs) ≡ is_empty xs
is_empty-sort_issues [] = unfold sort_issues in refl
is_empty-sort_issues (x ∷ xs) =
    let found = any-sort_issues (λ _. true) (x ∷ xs) in
    elim (Bool-cases (is_empty (sort_issues (x ∷ xs)))) [
      | inl e ↦ ground (arith, found, any-is_empty (λ _. true) (sort_issues (x ∷ xs)) e)
      | inr e ↦ e
    ]

-- The report's blockers are those found, in strictly ascending order: sorted, and none twice.
pub blockers_canonical :
    (f : HostFacts) (policy : PreflightPolicy)
    → IsStrict compare_issue (evaluate_preflight f policy).blockers
      × ((issue : PreflightIssue)
          → contains (evaluate_preflight f policy).blockers issue
            ≡ contains (found_blockers f policy) issue)
unfolding evaluate_preflight sort_issues
blockers_canonical f policy = (
  dedup-sort_by-IsStrict compare_issue-IsLawful (found_blockers f policy),
  λ issue. any-sort_issues (λ y. y == issue) (found_blockers f policy),
)

-- A number that may be unknown, with a lower bound where it is known.
abbrev pub AtLeast : ℕ → Option ℕ → Type 0
AtLeast n none = Unit
AtLeast n (some b) = n ≤ b

abbrev pub IsStorageReady : Option StorageFacts → Type 0
IsStorageReady none = ⊥
IsStorageReady (some s) =
    (s.root_writable ≡ true)
    × (s.home_isolated ≡ true)
    × (268435456 ≤ s.boot_available_bytes)
    × AtLeast 33554432 s.esp_available_bytes

storage_lem : (o : Option StorageFacts) → (is_empty (storage_blockers o) ≡ true) ↔ IsStorageReady o
unfolding storage_blockers
storage_lem o = (λ h. ground arith, λ h. ground arith)

abbrev pub IsRepositoryReady : RepositoryFact → Type 0
IsRepositoryReady r =
    (r.enabled ≡ false) ⊎ ((r.metadata_valid ≡ true) × (r.signing_key_trusted ≡ true))

abbrev pub AllReady : List RepositoryFact → Type 0
AllReady [] = Unit
AllReady (r ∷ rs) = IsRepositoryReady r × AllReady rs

repositories_lem :
    (rs : List RepositoryFact) → (is_empty (repository_blockers rs) ≡ true) ↔ AllReady rs
unfolding repository_blockers
repositories_lem [] = (λ _. tt, λ _. refl)
repositories_lem (r ∷ rs) =
    let rest = repositories_lem rs in (λ h. ground (arith, rest.0), λ h. ground (arith, rest.1))

-- The battery is not in use, or its charge is known and not below the policy's minimum.
abbrev pub IsCharged : ℕ → Bool → Option ℕ → Type 0
IsCharged minimum false percent = Unit
IsCharged minimum true none = ⊥
IsCharged minimum true (some percent) = minimum ≤ percent

battery_lem :
    (f : HostFacts) (policy : PreflightPolicy)
    → (is_empty (battery_blockers f policy) ≡ true)
      ↔ IsCharged policy.minimum_battery_percent f.on_battery f.battery_percent
unfolding battery_blockers
battery_lem f policy = (λ h. ground arith, λ h. ground arith)

abbrev pub IsHostReady : HostFacts → Type 0
IsHostReady f =
    (f.release.edition ≡ codes "desktop")
    × (f.release.architecture ≡ codes "x86_64")
    × (f.root_filesystem ≡ codes "btrfs")
    × (f.snapper_root_configured ≡ true)
    × (f.rpm_database_healthy ≡ true)
    × (f.package_lock_free ≡ true)

host_lem : (f : HostFacts) → (is_empty (host_blockers f) ≡ true) ↔ IsHostReady f
unfolding host_blockers
host_lem f = (λ h. ground arith, λ h. ground arith)

-- What the host must provide for a plan.
pub record IsReady (f : HostFacts) (policy : PreflightPolicy) : Type 0 where
  pub storage : IsStorageReady f.storage
  pub host : IsHostReady f
  pub space : required_bytes f policy ≤ f.available_bytes
  pub battery : IsCharged policy.minimum_battery_percent f.on_battery f.battery_percent
  pub secure_boot :
      (policy.require_secure_boot_fact ≡ false) ⊎ (is_some f.secure_boot_enabled ≡ true)
  pub repositories : AllReady f.repositories

found_blockers_parts :
    (f : HostFacts) (policy : PreflightPolicy)
    → is_empty (found_blockers f policy) ≡ (
        is_empty (storage_blockers f.storage)
        && (is_empty (host_blockers f)
            && (leb (required_bytes f policy) f.available_bytes
                && (is_empty (battery_blockers f policy)
                    && (not (policy.require_secure_boot_fact && is_none f.secure_boot_enabled)
                        && is_empty (repository_blockers f.repositories))))))
unfolding found_blockers
found_blockers_parts f policy = simp is_empty-append (ground arith)

found_blockers_lem :
    (f : HostFacts) (policy : PreflightPolicy)
    → (is_empty (found_blockers f policy) ≡ true) ↔ IsReady f policy
found_blockers_lem f policy = (
  λ h.
      let parts = sym (found_blockers_parts f policy) ∙ h in
      record {
        storage = (storage_lem f.storage).0 (ground arith);
        host = (host_lem f).0 (ground arith);
        space = ground arith;
        battery = (battery_lem f policy).0 (ground arith);
        secure_boot = ground arith;
        repositories = (repositories_lem f.repositories).0 (ground arith);
      },
  λ r.
      found_blockers_parts f policy
      ∙ ground (
        arith,
        (storage_lem f.storage).1 r.storage,
        (host_lem f).1 r.host,
        r.space,
        (battery_lem f policy).1 r.battery,
        r.secure_boot,
        (repositories_lem f.repositories).1 r.repositories,
      ),
)

-- The preflight passes exactly when the host is ready.
pub passed-IsReady :
    (f : HostFacts) (policy : PreflightPolicy)
    → (passed (evaluate_preflight f policy) ≡ true) ↔ IsReady f policy
unfolding evaluate_preflight
passed-IsReady f policy =
    let same = is_empty-sort_issues (found_blockers f policy) in
    let iff = found_blockers_lem f policy in (λ h. iff.0 (sym same ∙ h), λ r. same ∙ iff.1 r)

-- Below the end of `u64` the space test is exact: `available_bytes` holds the sum of the demands and
-- the margin, without wrap-around, and the release's own minimum.
pub required_bytes-le :
    (f : HostFacts) (policy : PreflightPolicy)
    → f.available_bytes < u64_max
    → (required_bytes f policy ≤ f.available_bytes) ↔ (
        (f.required_download_bytes + f.required_transaction_bytes + f.required_snapshot_bytes
            + policy.free_space_margin_bytes
          ≤ f.available_bytes)
        × (policy.minimum_free_space_bytes ≤ f.available_bytes))
unfolding required_bytes
required_bytes-le f policy h = (λ k. ground arith, λ k. ground arith)
