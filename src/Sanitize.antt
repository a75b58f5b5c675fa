-- ===== src/Sanitize.antt =====
-- core/src/sanitize.rs: what is left of a technical line before it is stored or shown.
pub mod Masks
pub mod Lines
use lyraos_desktop_updater.Prelude.{
  ltb, leb, if◌then◌else◌, Eq, ◌==◌, ◌!=◌, nat_eq, some_ne_none, some_inj, option_dec, option_eq,
  u64_max, saturating_add, is_some, is_none, is_some_and, is_none_or, Bool-cases, Option-cases,
  ==_iff, ==_refl, is_some_and-eq_false, and_left, and_right, is_none-eq, length, is_empty, first,
  any, all, all_at, keep, take, replicate, any-Memᴰ, any-elim, all-Memᴰ, all_intro, length-append,
  Memᴰ-append_left, Memᴰ-append_right, Memᴰ-append_cases, is_empty-append, is_empty-any,
  any-is_empty, any-append, is_empty-keep, length-keep_iff, contains, contains-Memᴰ, Memᴰ-contains,
  unique, IsDistinct, length-unique-le, IsDistinct-iff, pigeonhole, length-map, Text-discrete,
  text_list_eq, utf8, bytes, byte_len, is_whitespace, is_control, trim, trim_start, starts_with,
  split_once, Text, codes, text_eq, is_ascii_digit, is_ascii_upper, is_ascii_lower,
  is_ascii_alphanumeric, is_ascii_hexdigit, Result, fail_if, ok_or, map_err, is_ok, ◌>>=◌, ◌>>◌,
  >>=-eq-ok, err, ok, compare_text, compare_option, insert_sorted, sort_by, dedup, sort_texts,
  IsLawful, then_by, is_gt, compare_text-IsLawful, compare-IsLawful, then_by-IsLawful, key-IsLawful,
  pair-IsLawful, compare_option-IsLawful, reverse-IsLawful, IsSorted, IsStrict, any-sort_by,
  any-dedup, sort_by-IsSorted, dedup-sort_by-IsStrict, sort_by-perm, perm-sort_by-eq, first-sort_by,
  ℕ, zero, suc, ◌+◌, ◌-◌, ◌*◌, ◌/◌, ◌%◌, ◌^◌, ◌≤◌, ◌<◌, max, min, ◌≡◌, refl, sym, ap, ◌∙◌, subst,
  ◌≢◌, ◌↔◌, ◌⊎◌, inl, inr, Bool, true, false, not, ◌&&◌, ◌||◌, Option, none, some, List, [], ◌∷◌,
  ◌++◌, map, Memᴰ, arith, ℕ_discrete,
}
use lyraos_desktop_updater.Sanitize.Masks.{and_then, mask_home_paths, mask_urls, mask_assignments}

abbrev pub max_technical_line_bytes : ℕ
max_technical_line_bytes = 4096

pub record SanitizedLine : Type 0 where
  pub text : Text
  pub truncated : Bool

-- Where the scan of `strip_terminal_controls` stands: outside a sequence, behind an escape, in a
-- control sequence, in an operating system command, and before the last character of its terminator.
pub data StripMode : Type 0 where
  plain escape control command terminator : StripMode

abbrev lead_of : List ℕ → ℕ
lead_of [] = 0
lead_of (b ∷ _) = b

-- The first byte of a character.
abbrev pub lead_byte : ℕ → ℕ
lead_byte c = lead_of (utf8 c)

-- The scan skips these bytes.
abbrev pub is_control_byte : ℕ → Bool
is_control_byte b = ltb b 0x20 || leb 0x7f b && leb b 0x9f

abbrev pub tail_bytes : ℕ → List ℕ
tail_bytes c = elim (utf8 c) [ [] ↦ [] | _ ∷ bs ↦ bs ]

abbrev starts_with_byte : Text → ℕ → Bool
starts_with_byte [] b = false
starts_with_byte (c ∷ _) b = c == b

-- One character in a mode: the next mode, and the characters that are kept; none is a panic. Behind an
-- escape the source goes on one byte further, so that it stands inside a character of several bytes:
-- it skips the continuation bytes below 0xa0, and at another one it cuts the text where no character
-- begins.
unfoldable pub strip_step : StripMode → ℕ → Text → Option (StripMode × Text)
unfolding utf8 ℕ_discrete
strip_step plain c rest =
    if c == 0x1b
    then some (escape, [])
    else if c == 9
    then some (plain, 9 ∷ [])
    else if c == 10
    then some (plain, 32 ∷ [])
    else if is_control_byte (lead_byte c)
    then some (plain, [])
    else some (plain, c ∷ [])
strip_step escape c rest =
    if c == b'['
    then some (control, [])
    else if c == b']'
    then some (command, [])
    else if all is_control_byte (tail_bytes c)
    then some (plain, [])
    else none
strip_step control c rest =
    if leb 0x40 c && leb c 0x7e then some (plain, []) else some (control, [])
strip_step command c rest =
    if c == 7
    then some (plain, [])
    else if c == 0x1b && starts_with_byte rest b'\\'
    then some (terminator, [])
    else some (command, [])
strip_step terminator c rest = some (plain, [])

abbrev pub kept : Text → Option Text → Option Text
kept out none = none
kept out (some rest) = some (out ++ rest)

abbrev pub strip_after : Option (StripMode × Text) → (StripMode → Option Text) → Option Text
strip_after none rest = none
strip_after (some (next, out)) rest = kept out (rest next)

unfoldable pub strip_from : StripMode → Text → Option Text
strip_from mode [] = some []
strip_from mode (c ∷ s) = strip_after (strip_step mode c s) (λ next. strip_from next s)

unfoldable pub strip_terminal_controls : Text → Option Text
strip_terminal_controls s = strip_from plain s

-- The characters whose bytes end at or before the limit.
unfoldable pub prefix_within : ℕ → Text → Text
unfolding utf8
prefix_within limit [] = []
prefix_within limit (c ∷ s) =
    let rest = prefix_within (limit - length (utf8 c)) s in
    if leb (length (utf8 c)) limit then c ∷ rest else []

unfoldable pub truncate_utf8 : Text → ℕ → SanitizedLine
truncate_utf8 s limit =
    if leb (byte_len s) limit
    then record { text = s; truncated = false }
    else record { text = prefix_within limit s; truncated = true }

-- The line with its masks; none is a panic.
unfoldable pub masked_line : Text → Option Text
masked_line s =
    and_then (and_then (and_then (strip_terminal_controls s) mask_home_paths) mask_urls)
      mask_assignments

abbrev pub truncated_line : Option Text → Option SanitizedLine
truncated_line none = none
truncated_line (some masked) = some (truncate_utf8 masked max_technical_line_bytes)

unfoldable pub sanitize_technical_line : Text → Option SanitizedLine
sanitize_technical_line s = truncated_line (masked_line s)
