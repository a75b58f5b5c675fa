-- ===== src/Manifest/Version.antt =====
-- core/src/manifest.rs: versions of releases and of the updater.
pub mod Order
use Prim.Native.Nat.{compare, Ordering}
use lyraos_desktop_updater.Prelude.{
  leb, if◌then◌else◌, Eq, ◌==◌, nat_eq, option_dec, option_eq, u64_max, is_some_and, is_empty, all,
  Text-discrete, text_list_eq, bytes, starts_with, split_once, Text, codes, text_eq, is_ascii_digit,
  is_ascii_alphanumeric, then_by, ℕ, ◌+◌, ◌-◌, ◌*◌, Bool, true, false, not, ◌&&◌, ◌||◌, Option,
  none, some, List, [], ◌∷◌, arith, ℕ_discrete,
}

abbrev pub Triple : Type 0
Triple = ℕ × ℕ × ℕ

abbrev pub compare_triple : Triple → Triple → Ordering
compare_triple a b = then_by (compare a.0 b.0) (then_by (compare a.1 b.1) (compare a.2 b.2))

abbrev is_lt : Ordering → Bool
is_lt Ordering.lt = true
is_lt _ = false

-- `<` on tuples.
abbrev pub lt_triple : Triple → Triple → Bool
lt_triple a b = is_lt (compare_triple a b)

-- `str::parse::<u64>()` behind an optional `+`: digits only, at least one, and no overflow.
unfoldable pub parse_digits : ℕ → Text → Option ℕ
parse_digits acc [] = some acc
parse_digits acc (c ∷ s) =
    let next = acc * 10 + (c - b'0') in
    let rest = parse_digits next s in if is_ascii_digit c && leb next u64_max then rest else none

abbrev pub parse_unsigned : Text → Option ℕ
unfolding parse_digits
parse_unsigned [] = none
parse_unsigned (c ∷ s) = parse_digits 0 (c ∷ s)

unfoldable pub parse_u64 : Text → Option ℕ
unfolding ℕ_discrete
parse_u64 [] = none
parse_u64 (c ∷ s) = if c == b'+' then parse_unsigned s else parse_unsigned (c ∷ s)

abbrev pub prepend : ℕ → List Text → List Text
prepend c [] = (c ∷ []) ∷ []
prepend c (s ∷ ss) = (c ∷ s) ∷ ss

-- `value.split(separator)`
unfoldable pub split : Text → ℕ → List Text
unfolding ℕ_discrete
split [] d = [] ∷ []
split (c ∷ s) d = let rest = split s d in if c == d then [] ∷ rest else prepend c rest

abbrev combine : Option ℕ → Option ℕ → Option ℕ → Option Triple
combine (some major) (some minor) (some patch) = some (major, minor, patch)
combine _ _ _ = none

-- Two or three components; the third is 0 if it is missing.
abbrev of_components : List Text → Option Triple
of_components (a ∷ b ∷ []) = combine (parse_u64 a) (parse_u64 b) (some 0)
of_components (a ∷ b ∷ c ∷ []) = combine (parse_u64 a) (parse_u64 b) (parse_u64 c)
of_components _ = none

unfoldable pub semantic_version : Text → Option Triple
unfolding parse_u64 split
semantic_version value = of_components (split value b'.')

abbrev suffix_byte : ℕ → Bool
suffix_byte b = is_ascii_alphanumeric b || b == b'.' || b == b'-'

abbrev mark_prerelease : Bool → Option Triple → Option (Triple × Bool)
mark_prerelease flag none = none
mark_prerelease flag (some version) = some (version, flag)

-- The version before the first `-`, and whether there is a suffix behind it.
unfoldable pub release_version : Text → Option (Triple × Bool)
unfolding semantic_version split_once bytes ℕ_discrete
release_version value = elim (split_once value b'-') [
  | none ↦ mark_prerelease false (semantic_version value)
  | some (version, suffix) ↦
      if not (is_empty suffix) && all suffix_byte (bytes suffix)
      then mark_prerelease true (semantic_version version)
      else none
]

unfoldable pub is_prerelease : Text → Bool
unfolding release_version
is_prerelease value = is_some_and (release_version value) (λ v. v.1)

unfoldable pub is_legacy_calendar_version : Text → Bool
unfolding Text-discrete starts_with
is_legacy_calendar_version value =
    value == codes "27.02"
    || value == codes "27.06"
    || value == codes "28.02"
    || starts_with value (codes "2026.08")
    || starts_with value (codes "27.02-")

unfoldable pub valid_version_transition : Text → Text → Bool
unfolding Text-discrete
valid_version_transition source target =
    if source == target || is_legacy_calendar_version target
    then false
    else elim (release_version target) [
      | none ↦ false
      | some (newer, _) ↦
          if is_legacy_calendar_version source
          then true
          else is_some_and (release_version source) (λ older. lt_triple older.0 newer)
    ]
