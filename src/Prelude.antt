-- ===== src/Prelude.antt =====
-- The names that the components share: the libraries', passed on, and those of the children below.
mod Tests
mod Lists
mod Texts
mod Results
mod Orders
mod Sorting
pub use Tests.*
pub use Lists.*
unfoldable pub use Texts.{
  Text-discrete, text_list_eq, utf8, bytes, byte_len, is_whitespace, is_control, trim, trim_start,
  starts_with, split_once,
}
pub use Texts.{
  Text, codes, text_eq, is_ascii_digit, is_ascii_upper, is_ascii_lower, is_ascii_alphanumeric,
  is_ascii_hexdigit,
}
pub use Results.*
unfoldable pub use Orders.{compare_text, compare_option}
unfoldable pub use Sorting.{insert_sorted, sort_by, dedup, sort_texts}
pub use Orders.{
  IsLawful, then_by, is_gt, compare_text-IsLawful, compare-IsLawful, then_by-IsLawful, key-IsLawful,
  pair-IsLawful, compare_option-IsLawful, reverse-IsLawful,
}
pub use Sorting.{
  IsSorted, IsStrict, any-sort_by, any-dedup, sort_by-IsSorted, dedup-sort_by-IsStrict,
  sort_by-perm, perm-sort_by-eq, first-sort_by,
}
pub use Prim.Native.Nat.{ℕ, zero, suc, ◌+◌, ◌-◌, ◌*◌, ◌/◌, ◌%◌, ◌^◌, ◌≤◌, ◌<◌, max, min}
pub use mathlib.Core.Path.{◌≡◌, refl, sym, ap, ◌∙◌, subst}
pub use mathlib.Core.Logic.{◌≢◌, ◌↔◌, ◌⊎◌, inl, inr}
pub use mathlib.Core.Bool.{Bool, true, false, not, ◌&&◌, ◌||◌}
pub use mathlib.Core.Option.{Option, none, some}
pub use mathlib.Core.List.{List, [], ◌∷◌, ◌++◌, map, Memᴰ}
pub use native.Mathlib.Omega.{arith}
unfoldable pub use native.Mathlib.Decide.{ℕ_discrete}
