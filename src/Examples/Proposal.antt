-- ===== src/Examples/Proposal.antt =====
-- Runs of core/src/solver.rs on one proposal.
use lyraos_desktop_updater.Prelude.{
  nat_eq, option_eq, Text-discrete, text_list_eq, utf8, bytes, byte_len, is_whitespace, is_control,
  trim, trim_start, Text, codes, text_eq, ◌≡◌, refl, ◌↔◌, true, false, some, List, [], ◌∷◌, map,
  ℕ_discrete,
}
use lyraos_desktop_updater.Facts.{
  PackageChange, upgrade, VendorTransition, SolverPolicy, SolverResult, default_policy, passed,
}
use lyraos_desktop_updater.Solver.{
  valid_vendor_transitions, permitted, evaluate_solver_preflight, enrich, valid_rules_from,
  valid_vendor, valid_scope, lookup_pair, permitted_as, change_allowed, rule_allows, valid_package,
}
use lyraos_desktop_updater.Solver.Vendors.{IsAuthorized, permitted-IsAuthorized}
use lyraos_desktop_updater.Solver.Report.{IsAcceptable, passed-IsAcceptable}
use lyraos_desktop_updater.Preflight.Verdict.{IsReady}
use lyraos_desktop_updater.Examples.Host.{healthy, proposal_of}

abbrev move_of : Text → VendorTransition
move_of name = record { from = codes "lyra"; to = codes "vendor-b"; packages = some (name ∷ []) }

abbrev rules : List VendorTransition
rules = move_of (codes "kernel") ∷ move_of (codes "mesa") ∷ []

abbrev policy : SolverPolicy
policy = record {
  allowed_removals = [];
  allowed_vendor_transitions = rules;
  lockstep_packages = [];
}

abbrev upgrade_of : Text → Text → PackageChange
upgrade_of name vendor = record {
  name = name;
  architecture = codes "x86_64";
  action = upgrade;
  current_version = some (codes "1.0");
  proposed_version = some (codes "2.0");
  current_vendor = some (codes "lyra");
  proposed_vendor = some vendor;
  repository_alias = some (codes "lyraos");
  download_bytes = 10;
  installed_size_before = 20;
  installed_size_after = 30;
}

rules_are_valid : valid_vendor_transitions rules ≡ true
unfolding valid_vendor_transitions valid_rules_from valid_vendor valid_scope lookup_pair
    valid_package Text-discrete ℕ_discrete trim trim_start is_whitespace is_control byte_len bytes
    utf8
rules_are_valid = refl

-- The grant of one package covers no other package, and none to another vendor.
permitted_moves :
    map (permitted policy) (
      upgrade_of (codes "kernel") (codes "vendor-b")
      ∷ upgrade_of (codes "bash") (codes "vendor-b")
      ∷ upgrade_of (codes "kernel") (codes "vendor-c")
      ∷ upgrade_of (codes "bash") (codes "lyra")
      ∷ [])
    ≡ true ∷ false ∷ false ∷ true ∷ []
unfolding permitted permitted_as change_allowed rule_allows valid_vendor_transitions
    valid_rules_from valid_vendor valid_scope lookup_pair valid_package Text-discrete ℕ_discrete
    trim trim_start is_whitespace is_control byte_len bytes utf8
permitted_moves = refl

permitted-IsAuthorized_example :
    (permitted policy (upgrade_of (codes "kernel") (codes "vendor-b")) ≡ true)
    ↔ IsAuthorized policy (codes "kernel") upgrade (some (codes "lyra")) (some (codes "vendor-b"))
permitted-IsAuthorized_example =
    permitted-IsAuthorized policy (upgrade_of (codes "kernel") (codes "vendor-b"))

abbrev proposal : SolverResult
proposal = proposal_of (upgrade_of (codes "kernel") (codes "vendor-b") ∷ [])

passed-IsAcceptable_example :
    (passed (evaluate_solver_preflight healthy default_policy proposal policy) ≡ true)
    ↔ (IsReady (enrich healthy proposal) default_policy × IsAcceptable proposal policy)
passed-IsAcceptable_example = passed-IsAcceptable healthy default_policy proposal policy
