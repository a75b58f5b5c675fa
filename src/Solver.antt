-- ===== src/Solver.antt =====
-- core/src/solver.rs: what the package solver may propose under a release's policy.
pub mod Rules
pub mod Vendors
pub mod Report
use lyraos_desktop_updater.Prelude.{
  leb, if◌then◌else◌, Eq, ◌==◌, ◌!=◌, nat_eq, option_dec, option_eq, is_some, is_none, is_none_or,
  length, is_empty, any, all, keep, contains, unique, Text-discrete, text_list_eq, bytes, byte_len,
  is_control, trim, Text, text_eq, is_ascii_alphanumeric, ℕ, Bool, true, false, not, ◌&&◌, ◌||◌,
  Option, none, some, List, [], ◌∷◌, ◌++◌, map, arith, ℕ_discrete,
}
use lyraos_desktop_updater.Facts.{
  RepositoryFact, HostFacts, PreflightPolicy, PreflightReport, PreflightIssue,
  unsupported_solver_schema, solver_failed, unauthorized_downgrade, unauthorized_removal,
  unauthorized_vendor_change, lockstep_violation, PackageAction, install, upgrade, downgrade,
  remove, reinstall, PackageChange, SolverResult, VendorTransition, SolverPolicy,
}
use lyraos_desktop_updater.Preflight.{evaluate_preflight, sort_issues, block_if}

-- `valid_package` of core/src/manifest.rs.
abbrev pub package_byte : ℕ → Bool
package_byte b = is_ascii_alphanumeric b || b == b'+' || b == b'.' || b == b'-' || b == b'_'

unfoldable pub valid_package : Text → Bool
unfolding ℕ_discrete bytes
valid_package value = not (is_empty value) && all package_byte (bytes value)

unfoldable pub valid_vendor : Text → Bool
unfolding trim byte_len is_control
valid_vendor value =
    not (is_empty (trim value)) && leb (byte_len value) 512 && not (any is_control value)

-- The scope of a rule: not empty, without repetition, of valid names.
unfoldable pub valid_scope : List Text → Bool
unfolding Text-discrete ℕ_discrete
valid_scope packages =
    not (is_empty packages)
    && length (unique packages) == length packages
    && not (any (λ name. not (valid_package name)) packages)

abbrev pub PairMap : Type 0
PairMap = List ((Text × Text) × Bool)

-- `pairs.insert(key, scoped)`: the new map, and what the key held before.
unfoldable pub lookup_pair : Text → Text → PairMap → Option Bool
unfolding Text-discrete
lookup_pair from to [] = none
lookup_pair from to (((f, t), scoped) ∷ rest) =
    if f == from && t == to then some scoped else lookup_pair from to rest

-- The closure over the rules of `valid_vendor_transitions`, with the map that it captures. A newer
-- entry stands before an older one of its key.
unfoldable pub valid_rules_from : PairMap → List VendorTransition → Bool
unfolding lookup_pair
valid_rules_from pairs [] = true
valid_rules_from pairs (rule ∷ rules) =
    let scoped = is_some rule.packages in
    (valid_vendor rule.from
      && valid_vendor rule.to
      && is_none_or rule.packages valid_scope
      && is_none_or (lookup_pair rule.from rule.to pairs)
          (λ previous. if previous then scoped else not scoped))
    && valid_rules_from (((rule.from, rule.to), scoped) ∷ pairs) rules

unfoldable pub valid_vendor_transitions : List VendorTransition → Bool
unfolding valid_rules_from
valid_vendor_transitions rules = valid_rules_from [] rules

-- `.filter(|v| valid_vendor(v))`
abbrev pub known_vendor : Option Text → Option Text
known_vendor none = none
known_vendor (some v) = if valid_vendor v then some v else none

unfoldable pub rule_allows : Text → Text → Text → VendorTransition → Bool
unfolding Text-discrete
rule_allows from to name allowed =
    allowed.from == from
    && allowed.to == to
    && is_none_or allowed.packages (λ packages. contains packages name)

-- An upgrade, a downgrade or a reinstallation between two vendors.
unfoldable pub change_allowed : SolverPolicy → Text → Option Text → Option Text → Bool
unfolding Text-discrete rule_allows
change_allowed policy name (some from) (some to) =
    from == to
    || valid_vendor_transitions policy.allowed_vendor_transitions
      && any (rule_allows from to name) policy.allowed_vendor_transitions
change_allowed policy name _ _ = false

-- The `match change.action`, over the vendors as they stand in the change.
unfoldable pub permitted_as : SolverPolicy → Text → PackageAction → Option Text → Option Text → Bool
permitted_as policy name install current proposed =
    is_none (known_vendor current) && is_none current && is_some (known_vendor proposed)
permitted_as policy name remove current proposed =
    is_some (known_vendor current) && is_none proposed
permitted_as policy name _ current proposed =
    change_allowed policy name (known_vendor current) (known_vendor proposed)

unfoldable pub permitted : SolverPolicy → PackageChange → Bool
permitted policy change =
    permitted_as policy change.name change.action change.current_vendor change.proposed_vendor

unfoldable pub vendor_policy_blockers : List PackageChange → SolverPolicy → List PreflightIssue
vendor_policy_blockers [] policy = []
vendor_policy_blockers (change ∷ changes) policy =
    block_if (not (permitted policy change)) (unauthorized_vendor_change change.name)
    ++ vendor_policy_blockers changes policy

abbrev is_downgrade : PackageAction → Bool
is_downgrade downgrade = true
is_downgrade _ = false

abbrev is_removal : PackageAction → Bool
is_removal remove = true
is_removal _ = false

unfoldable pub change_blockers : SolverPolicy → List PackageChange → List PreflightIssue
unfolding Text-discrete
change_blockers policy [] = []
change_blockers policy (change ∷ changes) =
    block_if (is_downgrade change.action) (unauthorized_downgrade change.name)
    ++ (block_if (is_removal change.action && not (contains policy.allowed_removals change.name))
          (unauthorized_removal change.name)
        ++ change_blockers policy changes)

-- A group of which some packages change and some do not.
unfoldable pub group_broken : List PackageChange → List Text → Bool
unfolding Text-discrete ℕ_discrete
group_broken changes group =
    let changed = keep (λ name. any (λ change. change.name == name) changes) group in
    not (is_empty changed) && length changed != length group

unfoldable pub lockstep_blockers : List PackageChange → List (List Text) → List PreflightIssue
unfolding group_broken
lockstep_blockers changes [] = []
lockstep_blockers changes (group ∷ groups) =
    block_if (group_broken changes group) lockstep_violation ++ lockstep_blockers changes groups

abbrev mark_valid : List Text → RepositoryFact → RepositoryFact
mark_valid valid r = record r {
  metadata_valid = if r.enabled then contains valid r.alias else r.metadata_valid;
}

-- The facts with what the solver has shown of metadata and sizes.
unfoldable pub enrich : HostFacts → SolverResult → HostFacts
unfolding Text-discrete
enrich f solver = record f {
  repositories = map (mark_valid solver.metadata_valid_repositories) f.repositories;
  required_download_bytes = solver.download_bytes;
  required_transaction_bytes = solver.transaction_size_increase;
  required_snapshot_bytes = solver.estimated_snapshot_bytes;
}

unfoldable pub solver_blockers : SolverResult → SolverPolicy → List PreflightIssue
unfolding ℕ_discrete
solver_blockers solver policy =
    block_if (solver.schema_version != 1) unsupported_solver_schema
    ++ (block_if (not solver.successful || not (is_empty solver.problems)) solver_failed
        ++ (change_blockers policy solver.changes
            ++ (vendor_policy_blockers solver.changes policy
                ++ lockstep_blockers solver.changes policy.lockstep_packages)))

unfoldable pub evaluate_solver_preflight :
    HostFacts → PreflightPolicy → SolverResult → SolverPolicy → PreflightReport
evaluate_solver_preflight f preflight_policy solver policy =
    let report = evaluate_preflight (enrich f solver) preflight_policy in
    record report { blockers = sort_issues (report.blockers ++ solver_blockers solver policy) }
