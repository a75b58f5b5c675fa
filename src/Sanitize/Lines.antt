-- ===== src/Sanitize/Lines.antt =====
-- What a technical line is after its cleaning (core/src/sanitize.rs).
use lyraos_desktop_updater.Sanitize.Masks.Cuts.{all-append_left}
use lyraos_desktop_updater.Sanitize.Masks.Ends.{is_some-masks}
use lyraos_desktop_updater.Prelude.{
  ltb, leb, ◌==◌, ◌!=◌, nat_eq, some_inj, option_eq, is_some, is_none_or, Bool-cases, and_left,
  and_right, length, first, all, length-append, text_list_eq, utf8, bytes, byte_len, Text, text_eq,
  ℕ, ◌+◌, ◌-◌, ◌≤◌, ◌≡◌, refl, ap, ◌∙◌, subst, inl, inr, Bool, true, false, ◌&&◌, ◌||◌, Option,
  none, some, [], ◌∷◌, ◌++◌, arith, ℕ_discrete,
}
use lyraos_desktop_updater.Sanitize.{
  mask_assignments, mask_urls, mask_home_paths, and_then, sanitize_technical_line, SanitizedLine,
  tail_bytes, strip_terminal_controls, masked_line, kept, truncated_line, truncate_utf8, plain,
  escape, control, command, terminator, strip_after, lead_byte, StripMode, prefix_within,
  is_control_byte, strip_step, strip_from,
}
use lyraos_desktop_updater.Sanitize.Masks.Kept.{Keeps-masks, Keeps, Keeps-followed_by}

-- No control character below U+0080 but the tabulator.
abbrev pub is_clean : ℕ → Bool
is_clean c = c == 9 || leb 0x20 c && c != 0x7f

abbrev IsCleanStep : Option (StripMode × Text) → Type 0
IsCleanStep none = Unit
IsCleanStep (some (mode, out)) = all is_clean out ≡ true

plain-lead : (c : ℕ) → is_control_byte (lead_byte c) ≡ false → is_clean c ≡ true
unfolding utf8 ℕ_discrete
plain-lead c h = ground arith

strip_step-IsCleanStep : (mode : StripMode) (c : ℕ) (s : Text) → IsCleanStep (strip_step mode c s)
unfolding strip_step ℕ_discrete
strip_step-IsCleanStep plain c s = let lead = plain-lead c in ground arith
strip_step-IsCleanStep escape c s = ground arith
strip_step-IsCleanStep control c s = ground arith
strip_step-IsCleanStep command c s = ground arith
strip_step-IsCleanStep terminator c s = refl

Keeps-strip_after :
    (o : Option (StripMode × Text)) (rest : StripMode → Option Text)
    → IsCleanStep o
    → ((mode : StripMode) → Keeps is_clean (rest mode))
    → Keeps is_clean (strip_after o rest)
Keeps-strip_after none rest h k = refl
Keeps-strip_after (some (mode, out)) rest h k =
    Keeps-followed_by is_clean out (rest mode) h (k mode)

Keeps-strip_from : (mode : StripMode) (s : Text) → Keeps is_clean (strip_from mode s)
unfolding strip_from
Keeps-strip_from mode [] = refl
Keeps-strip_from mode (c ∷ s) =
    Keeps-strip_after (strip_step mode c s) _ (strip_step-IsCleanStep mode c s)
      (λ next. Keeps-strip_from next s)

byte_len_cons : (c : ℕ) (s : Text) → byte_len (c ∷ s) ≡ length (utf8 c) + byte_len s
unfolding byte_len bytes
byte_len_cons c s = length-append (utf8 c) (bytes s)

cons-fit :
    (limit c : ℕ) (t : Text) (o : Option ℕ)
    → length (utf8 c) ≤ limit
    → is_none_or o (λ d. ltb (limit - length (utf8 c)) (byte_len t + length (utf8 d))) ≡ true
    → is_none_or o (λ d. ltb limit (byte_len (c ∷ t) + length (utf8 d))) ≡ true
cons-fit limit c t none le h = refl
cons-fit limit c t (some d) le h = let e = byte_len_cons c t in ground arith

-- The longest prefix of a text that is not longer than the limit.
abbrev pub IsLongest : ℕ → Text → Text → Type 0
IsLongest limit s t =
    (byte_len t ≤ limit)
    × ((rest : Text) × (t ++ rest ≡ s)
        × (is_none_or (first rest) (λ c. ltb limit (byte_len t + length (utf8 c))) ≡ true))

cons-IsLongest :
    (limit c : ℕ) (s t : Text)
    → length (utf8 c) ≤ limit
    → IsLongest (limit - length (utf8 c)) s t
    → IsLongest limit (c ∷ s) (c ∷ t)
cons-IsLongest limit c s t le (b, (rest, e, f)) =
    let sum = byte_len_cons c t in
    (omega arith, (rest, ap (◌∷◌ c) e, cons-fit limit c t (first rest) le f))

prefix_within-IsLongest : (limit : ℕ) (s : Text) → IsLongest limit s (prefix_within limit s)
unfolding prefix_within byte_len
prefix_within-IsLongest limit [] = (omega arith, ([], refl, refl))
prefix_within-IsLongest limit (c ∷ s) = elim (Bool-cases (leb (length (utf8 c)) limit)) [
  | inl e ↦ rw e (
      cons-IsLongest limit c s _ (ground arith)
        (prefix_within-IsLongest (limit - length (utf8 c)) s))
  | inr e ↦ rw e (omega arith, (c ∷ s, refl, ground arith))
]

append_nil : (s : Text) → s ++ [] ≡ s
append_nil [] = refl
append_nil (c ∷ s) = ap (◌∷◌ c) (append_nil s)

truncate_utf8-IsLongest : (limit : ℕ) (s : Text) → IsLongest limit s (truncate_utf8 s limit).text
unfolding truncate_utf8
truncate_utf8-IsLongest limit s = elim (Bool-cases (leb (byte_len s) limit)) [
  | inl e ↦ rw e (ground arith, ([], append_nil s, refl))
  | inr e ↦ rw e (prefix_within-IsLongest limit s)
]

all-prefix :
    (limit : ℕ) (s t : Text) → IsLongest limit s t → all is_clean s ≡ true → all is_clean t ≡ true
all-prefix limit s t (_, (rest, e, _)) h = all-append_left is_clean t rest (ap (all is_clean) e ∙ h)

masked_line-Keeps : (s : Text) → Keeps is_clean (masked_line s)
unfolding masked_line strip_terminal_controls ℕ_discrete
masked_line-Keeps s =
    Keeps-masks is_clean (refl, refl, refl, refl, refl) (strip_from plain s)
      (Keeps-strip_from plain s)

truncated-clean :
    (o : Option Text) (line : SanitizedLine)
    → Keeps is_clean o
    → truncated_line o ≡ some line
    → (byte_len line.text ≤ 4096) × (all is_clean line.text ≡ true)
truncated-clean none line h e = cc
truncated-clean (some s) line h e =
    let longest = truncate_utf8-IsLongest 4096 s in
    subst (λ t. (byte_len t.text ≤ 4096) × (all is_clean t.text ≡ true)) (some_inj e)
      (longest.0, all-prefix 4096 s (truncate_utf8 s 4096).text longest h)

-- A cleaned line has at most 4096 bytes and no control character below U+0080 but the tabulator.
pub sanitize_technical_line-clean :
    (s : Text) (line : SanitizedLine)
    → sanitize_technical_line s ≡ some line
    → (byte_len line.text ≤ 4096) × (all is_clean line.text ≡ true)
unfolding sanitize_technical_line
sanitize_technical_line-clean s line h =
    truncated-clean (masked_line s) line (masked_line-Keeps s) h

is_some-kept : (s : Text) (o : Option Text) → is_some o ≡ true → is_some (kept s o) ≡ true
is_some-kept s none h = h
is_some-kept s (some t) h = refl

is_some-truncated : (o : Option Text) → is_some o ≡ true → is_some (truncated_line o) ≡ true
is_some-truncated none h = cc
is_some-truncated (some t) h = refl

-- An escape stands at the end or before an ASCII character.
abbrev pub escapes_ascii : Text → Bool
escapes_ascii [] = true
escapes_ascii (c ∷ s) = (c != 0x1b || is_none_or (first s) (λ d. ltb d 0x80)) && escapes_ascii s

-- The scan can go on with this text.
abbrev is_ready : StripMode → Text → Bool
is_ready escape s = is_none_or (first s) (λ d. ltb d 0x80)
is_ready _ _ = true

abbrev GoesOn : Text → Option (StripMode × Text) → Type 0
GoesOn s none = ⊥
GoesOn s (some (mode, out)) = is_ready mode s ≡ true

ascii-tail : (c : ℕ) → ltb c 0x80 ≡ true → tail_bytes c ≡ []
unfolding utf8
ascii-tail c h = rw (h, tail_bytes) refl

strip_step-GoesOn :
    (mode : StripMode) (c : ℕ) (s : Text)
    → is_ready mode (c ∷ s) ≡ true
    → escapes_ascii (c ∷ s) ≡ true
    → GoesOn s (strip_step mode c s)
unfolding strip_step ℕ_discrete
strip_step-GoesOn plain c s h k = ground arith
strip_step-GoesOn escape c s h k = let t = ascii-tail c h in rw t (ground arith)
strip_step-GoesOn control c s h k = ground arith
strip_step-GoesOn command c s h k = ground arith
strip_step-GoesOn terminator c s h k = refl

is_some-strip_after :
    (s : Text) (o : Option (StripMode × Text)) (rest : StripMode → Option Text)
    → GoesOn s o
    → ((mode : StripMode) → is_ready mode s ≡ true → is_some (rest mode) ≡ true)
    → is_some (strip_after o rest) ≡ true
is_some-strip_after s none rest h k = absurd h
is_some-strip_after s (some (mode, out)) rest h k = is_some-kept out (rest mode) (k mode h)

is_some-strip_from :
    (mode : StripMode) (s : Text)
    → is_ready mode s ≡ true
    → escapes_ascii s ≡ true
    → is_some (strip_from mode s) ≡ true
unfolding strip_from
is_some-strip_from mode [] h k = refl
is_some-strip_from mode (c ∷ s) h k =
    is_some-strip_after s (strip_step mode c s) _ (strip_step-GoesOn mode c s h k)
      (λ next r. is_some-strip_from next s r (and_right _ (escapes_ascii s) k))

-- A line in which each escape stands at the end or before an ASCII character is cleaned: neither
-- does the removal of control sequences panic nor does a mask go on for ever.
pub sanitize_technical_line-is_some :
    (s : Text) → escapes_ascii s ≡ true → is_some (sanitize_technical_line s) ≡ true
unfolding sanitize_technical_line masked_line strip_terminal_controls
sanitize_technical_line-is_some s h =
    is_some-truncated _ (is_some-masks (strip_from plain s) (is_some-strip_from plain s refl h))

abbrev StaysPlain : Option (StripMode × Text) → Type 0
StaysPlain none = ⊥
StaysPlain (some (mode, out)) = mode ≡ plain

plain-StaysPlain : (c : ℕ) (s : Text) → (c != 0x1b) ≡ true → StaysPlain (strip_step plain c s)
unfolding strip_step ℕ_discrete
plain-StaysPlain c s h = ground arith

strip_after-none :
    (o : Option (StripMode × Text)) (rest : StripMode → Option Text)
    → StaysPlain o
    → rest plain ≡ none
    → strip_after o rest ≡ none
strip_after-none none rest h k = refl
strip_after-none (some (mode, out)) rest h k = ap (kept out) (ap rest h ∙ k)

escape-none :
    (c : ℕ) (s : Text) → all is_control_byte (tail_bytes c) ≡ false → strip_step escape c s ≡ none
unfolding strip_step utf8 ℕ_discrete
escape-none c s h = ground arith

strip_from-none :
    (before s : Text) (c : ℕ)
    → all (λ d. d != 0x1b) before ≡ true
    → all is_control_byte (tail_bytes c) ≡ false
    → strip_from plain (before ++ 0x1b ∷ c ∷ s) ≡ none
unfolding strip_from strip_step ℕ_discrete
strip_from-none [] s c h k = rw (escape-none c s k) refl
strip_from-none (b ∷ before) s c h k =
    strip_after-none (strip_step plain b (before ++ 0x1b ∷ c ∷ s))
      (λ next. strip_from next (before ++ 0x1b ∷ c ∷ s))
      (plain-StaysPlain b (before ++ 0x1b ∷ c ∷ s) (and_left (b != 0x1b) _ h))
      (strip_from-none before s c (and_right (b != 0x1b) _ h) k)

-- A line whose first escape stands before a character, one of whose continuation bytes is 0xa0 or
-- more, is not cleaned: the removal of control sequences panics.
pub sanitize_technical_line-panic :
    (before s : Text) (c : ℕ)
    → all (λ d. d != 0x1b) before ≡ true
    → all is_control_byte (tail_bytes c) ≡ false
    → sanitize_technical_line (before ++ 0x1b ∷ c ∷ s) ≡ none
unfolding sanitize_technical_line masked_line strip_terminal_controls
sanitize_technical_line-panic before s c h k =
    ap
      (λ o.
        truncated_line
          (and_then (and_then (and_then o mask_home_paths) mask_urls) mask_assignments))
      (strip_from-none before s c h k)
