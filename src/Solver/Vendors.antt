-- ===== src/Solver/Vendors.antt =====
-- What the vendor policy lets through (core/src/solver.rs).
use lyraos_desktop_updater.Prelude.{
  nat_eq, some_ne_none, option_eq, is_some, is_none, is_none_or, Bool-cases, and_left, and_right,
  is_none-eq, is_empty, any, any-Memᴰ, any-elim, contains, Text-discrete, text_list_eq, Text,
  text_eq, ◌≡◌, refl, ◌↔◌, ◌⊎◌, inl, inr, true, ◌&&◌, Option, none, some, List, [], ◌∷◌, Memᴰ,
  arith,
}
use lyraos_desktop_updater.Facts.{
  PackageAction, install, remove, PackageChange, VendorTransition, SolverPolicy,
}
use lyraos_desktop_updater.Preflight.{issue_eq}
use lyraos_desktop_updater.Solver.{
  valid_vendor, valid_vendor_transitions, known_vendor, rule_allows, change_allowed, permitted_as,
  permitted, vendor_policy_blockers,
}

-- A rule of the policy grants the move of this package from one vendor to the other.
abbrev pub IsGranted : SolverPolicy → Text → Text → Text → Type 0
IsGranted policy name from to =
    (rule : VendorTransition) × Memᴰ rule policy.allowed_vendor_transitions
    × (rule.from ≡ from)
    × (rule.to ≡ to)
    × (is_none_or rule.packages (λ packages. contains packages name) ≡ true)

-- A move is authorized if it stays with its vendor, or if the rules are valid and one grants it.
abbrev pub IsAuthorizedMove : SolverPolicy → Text → Text → Text → Type 0
IsAuthorizedMove policy name from to =
    (from ≡ to)
    ⊎ ((valid_vendor_transitions policy.allowed_vendor_transitions ≡ true)
        × IsGranted policy name from to)

abbrev pub IsKnown : Option Text → Text → Type 0
IsKnown o v = (o ≡ some v) × (valid_vendor v ≡ true)

-- An installation names a known vendor and replaces none, a removal takes a package of a known
-- vendor away, and any other change leads between known vendors by an authorized move.
abbrev pub IsAuthorized : SolverPolicy → Text → PackageAction → Option Text → Option Text → Type 0
IsAuthorized policy name install current proposed =
    (current ≡ none) × ((to : Text) × IsKnown proposed to)
IsAuthorized policy name remove current proposed =
    (proposed ≡ none) × ((from : Text) × IsKnown current from)
IsAuthorized policy name _ current proposed =
    (from : Text) × (to : Text) × IsKnown current from
    × IsKnown proposed to
    × IsAuthorizedMove policy name from to

known_vendor_cases :
    (o : Option Text)
    → (known_vendor o ≡ none) ⊎ ((v : Text) × (known_vendor o ≡ some v) × IsKnown o v)
known_vendor_cases none = inl refl
known_vendor_cases (some v) = elim (Bool-cases (valid_vendor v)) [
  | inl e ↦ inr (v, rw e, (refl, e))
  | inr e ↦ inl (rw e)
]

rule_allows_lem :
    (from to name : Text) (rule : VendorTransition)
    → (rule_allows from to name rule ≡ true) ↔ (
        (rule.from ≡ from)
        × (rule.to ≡ to)
        × (is_none_or rule.packages (λ packages. contains packages name) ≡ true))
unfolding rule_allows
rule_allows_lem from to name rule = (λ h. ground arith, λ h. ground arith)

granted_lem :
    (policy : SolverPolicy) (name from to : Text)
    → (any (rule_allows from to name) policy.allowed_vendor_transitions ≡ true)
      ↔ IsGranted policy name from to
granted_lem policy name from to = (
  λ h.
      let (rule, m, e) = any-elim (rule_allows from to name) _ h in
      let (p, q, r) = (rule_allows_lem from to name rule).0 e in (rule, m, p, q, r),
  λ (rule, m, p, q, r).
      any-Memᴰ (rule_allows from to name) _ m ((rule_allows_lem from to name rule).1 (p, q, r)),
)

first_known :
    (policy : SolverPolicy) (name : Text) (current proposed : Option Text)
    → change_allowed policy name (known_vendor current) (known_vendor proposed) ≡ true
    → is_some (known_vendor current) ≡ true
unfolding change_allowed
first_known policy name current proposed h = ground arith

second_known :
    (policy : SolverPolicy) (name : Text) (current proposed : Option Text)
    → change_allowed policy name (known_vendor current) (known_vendor proposed) ≡ true
    → is_some (known_vendor proposed) ≡ true
unfolding change_allowed
second_known policy name current proposed h = ground arith

change_allowed_lem :
    (policy : SolverPolicy) (name from to : Text)
    → (change_allowed policy name (some from) (some to) ≡ true)
      ↔ IsAuthorizedMove policy name from to
unfolding change_allowed
change_allowed_lem policy name from to =
    let granted = granted_lem policy name from to in
    (
      λ h. elim (Text-discrete from to) [
        | yes p ↦ inl p
        | no p ↦ inr (ground arith, granted.0 (ground arith))
      ],
      λ h. ground (arith, granted.1),
    )

known_vendor-IsKnown :
    (o : Option Text)
    → is_some (known_vendor o) ≡ true
    → (v : Text) × (known_vendor o ≡ some v) × IsKnown o v
known_vendor-IsKnown o h = elim (known_vendor_cases o) [
  | inl e ↦ absurd (ground arith)
  | inr found ↦ found
]

known_vendor-eq : (o : Option Text) (v : Text) → IsKnown o v → known_vendor o ≡ some v
known_vendor-eq o v (e, h) = rw e (rw h)

other_lem :
    (policy : SolverPolicy) (name : Text) (current proposed : Option Text)
    → (change_allowed policy name (known_vendor current) (known_vendor proposed) ≡ true) ↔ (
        (from : Text) × (to : Text) × IsKnown current from
        × IsKnown proposed to
        × IsAuthorizedMove policy name from to)
other_lem policy name current proposed = (
  λ h.
      let (from, e, k) =
        known_vendor-IsKnown current (first_known policy name current proposed h) in
      let (to, d, j) =
        known_vendor-IsKnown proposed (second_known policy name current proposed h) in
      (from, to, k, j, (change_allowed_lem policy name from to).0 (rw (e, d) at h)),
  λ (from, to, k, j, move).
      rw (known_vendor-eq current from k, known_vendor-eq proposed to j)
        ((change_allowed_lem policy name from to).1 move),
)

some_current_refused :
    (u : Text) (proposed : Option Text)
    → (is_none (known_vendor (some u)) && is_none (some u) && is_some (known_vendor proposed))
      ≡ true
    → ⊥
some_current_refused u proposed h =
    let second = and_right (is_none (known_vendor (some u))) (is_none (some u)) (and_left _ _ h) in
    cc

permitted_as-IsAuthorized :
    (policy : SolverPolicy) (name : Text) (action : PackageAction) (current proposed : Option Text)
    → (permitted_as policy name action current proposed ≡ true)
      ↔ IsAuthorized policy name action current proposed
unfolding permitted_as
permitted_as-IsAuthorized policy name install none proposed = (
  λ h. let (v, e, k) = known_vendor-IsKnown proposed h in (refl, (v, k)),
  λ (none_before, (v, k)). rw (known_vendor-eq proposed v k),
)
permitted_as-IsAuthorized policy name install (some u) proposed =
    (λ h. absurd (some_current_refused u proposed h), λ (e, _). absurd (some_ne_none e))
permitted_as-IsAuthorized policy name remove current proposed = (
  λ h.
      let (v, e, k) = known_vendor-IsKnown current (and_left _ _ h) in
      (is_none-eq proposed (and_right (is_some (known_vendor current)) _ h), (v, k)),
  λ (gone, (v, k)). rw (known_vendor-eq current v k, gone),
)
permitted_as-IsAuthorized policy name _ current proposed = other_lem policy name current proposed

-- The vendor check lets a change through exactly when the change is authorized.
pub permitted-IsAuthorized :
    (policy : SolverPolicy) (change : PackageChange)
    → (permitted policy change ≡ true)
      ↔ IsAuthorized policy change.name change.action change.current_vendor change.proposed_vendor
unfolding permitted
permitted-IsAuthorized policy change =
    permitted_as-IsAuthorized policy change.name change.action _ _

abbrev pub AllAuthorized : SolverPolicy → List PackageChange → Type 0
AllAuthorized policy [] = Unit
AllAuthorized policy (c ∷ cs) =
    IsAuthorized policy c.name c.action c.current_vendor c.proposed_vendor × AllAuthorized policy cs

-- No vendor blocker is raised exactly when every change is authorized.
pub vendor_policy_blockers-AllAuthorized :
    (changes : List PackageChange) (policy : SolverPolicy)
    → (is_empty (vendor_policy_blockers changes policy) ≡ true) ↔ AllAuthorized policy changes
unfolding vendor_policy_blockers
vendor_policy_blockers-AllAuthorized [] policy = (λ _. tt, λ _. refl)
vendor_policy_blockers-AllAuthorized (c ∷ cs) policy =
    let rest = vendor_policy_blockers-AllAuthorized cs policy in
    let here = permitted-IsAuthorized policy c in
    (
      λ h. (here.0 (ground arith), rest.0 (ground arith)),
      λ (a, b). let e = here.1 a in rw e (rest.1 b),
    )
