-- ===== src/Solver/Rules.antt =====
-- What valid vendor rules are (core/src/solver.rs).
use lyraos_desktop_updater.Prelude.{
  nat_eq, option_eq, is_some, is_none_or, text_list_eq, text_eq, ◌≡◌, sym, subst, Bool, true, some,
  List, [], ◌∷◌, Memᴰ, arith,
}
use lyraos_desktop_updater.Facts.{VendorTransition}
use lyraos_desktop_updater.Preflight.{issue_eq}
use lyraos_desktop_updater.Solver.{
  valid_vendor, valid_scope, PairMap, lookup_pair, valid_rules_from, valid_vendor_transitions,
}

-- Two rules of one vendor pair agree on whether they name packages.
abbrev pub SameKind : VendorTransition → VendorTransition → Type 0
SameKind a b = a.from ≡ b.from → a.to ≡ b.to → is_some a.packages ≡ is_some b.packages

pub record IsValidRule (rule : VendorTransition) : Type 0 where
  pub from_known : valid_vendor rule.from ≡ true
  pub to_known : valid_vendor rule.to ≡ true
  pub scope : is_none_or rule.packages valid_scope ≡ true

-- What the map says of a pair fits a rule.
abbrev Fits : PairMap → VendorTransition → Type 0
Fits pairs rule =
    (scoped : Bool)
    → lookup_pair rule.from rule.to pairs ≡ some scoped
    → scoped ≡ is_some rule.packages

Fits-newest :
    (pairs : PairMap) (rule a : VendorTransition)
    → Fits (((rule.from, rule.to), is_some rule.packages) ∷ pairs) a
    → SameKind rule a
unfolding lookup_pair
Fits-newest pairs rule a later = λ p q. later (is_some rule.packages) (ground arith)

-- A rule that fits the map with a newer entry fits the map without it.
Fits-older :
    (pairs : PairMap) (rule a : VendorTransition)
    → Fits pairs rule
    → Fits (((rule.from, rule.to), is_some rule.packages) ∷ pairs) a
    → Fits pairs a
unfolding lookup_pair
Fits-older pairs rule a fits later =
    λ scoped e. ground (arith, fits scoped, later scoped, later (is_some rule.packages))

valid_rules_from-head :
    (pairs : PairMap) (rule : VendorTransition) (rules : List VendorTransition)
    → valid_rules_from pairs (rule ∷ rules) ≡ true
    → IsValidRule rule
      × Fits pairs rule
      × (valid_rules_from (((rule.from, rule.to), is_some rule.packages) ∷ pairs) rules ≡ true)
unfolding valid_rules_from
valid_rules_from-head pairs rule rules h = (ground arith, λ scoped e. ground arith, ground arith)

valid_rules_from-Fits :
    (pairs : PairMap) (rules : List VendorTransition) {a : VendorTransition}
    → valid_rules_from pairs rules ≡ true
    → Memᴰ a rules
    → Fits pairs a
valid_rules_from-Fits pairs [] h m = elim m [ ]
valid_rules_from-Fits pairs (rule ∷ rules) h (Memᴰ.head e) =
    subst (Fits pairs) (sym e) (valid_rules_from-head pairs rule rules h).1
valid_rules_from-Fits pairs (rule ∷ rules) {a = a} h (Memᴰ.tail m) =
    let (valid, fits, rest) = valid_rules_from-head pairs rule rules h in
    let later = valid_rules_from-Fits _ rules rest m in
    λ scoped e. Fits-older pairs rule a fits later scoped e

valid_rules_from-SameKind :
    (pairs : PairMap) (rules : List VendorTransition) {a b : VendorTransition}
    → valid_rules_from pairs rules ≡ true
    → Memᴰ a rules
    → Memᴰ b rules
    → SameKind a b
valid_rules_from-SameKind pairs [] h m n = elim m [ ]
valid_rules_from-SameKind pairs (rule ∷ rules) h (Memᴰ.head d) (Memᴰ.head e) = λ _ _. cc
valid_rules_from-SameKind pairs (rule ∷ rules) {b = b} h (Memᴰ.head d) (Memᴰ.tail n) =
    let (valid, fits, rest) = valid_rules_from-head pairs rule rules h in
    let later = valid_rules_from-Fits _ rules rest n in
    subst (λ r. SameKind r b) (sym d) (Fits-newest pairs rule b later)
valid_rules_from-SameKind pairs (rule ∷ rules) {a = a} h (Memᴰ.tail m) (Memᴰ.head e) =
    let (valid, fits, rest) = valid_rules_from-head pairs rule rules h in
    let later = valid_rules_from-Fits _ rules rest m in
    subst (SameKind a) (sym e) (λ p q. sym (Fits-newest pairs rule a later (sym p) (sym q)))
valid_rules_from-SameKind pairs (rule ∷ rules) h (Memᴰ.tail m) (Memᴰ.tail n) =
    let (valid, fits, rest) = valid_rules_from-head pairs rule rules h in
    valid_rules_from-SameKind _ rules rest m n

-- With valid rules, no grant of a whole vendor pair stands beside one that names packages: two rules
-- of one pair both name packages or both do not.
pub valid_rules-same_kind :
    (rules : List VendorTransition) {a b : VendorTransition}
    → valid_vendor_transitions rules ≡ true
    → Memᴰ a rules
    → Memᴰ b rules
    → a.from ≡ b.from
    → a.to ≡ b.to
    → is_some a.packages ≡ is_some b.packages
unfolding valid_vendor_transitions
valid_rules-same_kind rules h m n from to = valid_rules_from-SameKind [] rules h m n from to
