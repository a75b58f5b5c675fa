-- ===== src/Sanitize/Masks.antt =====
-- core/src/sanitize.rs: the masks of a technical line. A loop over the rest of a line runs on fuel, and
-- answers none only if that is used up.
pub mod Cuts
pub mod Kept
pub mod Ends
use lyraos_desktop_updater.Prelude.{
  leb, if◌then◌else◌, ◌==◌, nat_eq, option_eq, length, is_empty, take, text_list_eq, is_whitespace,
  starts_with, Text, codes, text_eq, is_ascii_upper, ℕ, zero, suc, ◌+◌, Bool, ◌||◌, Option, none,
  some, List, [], ◌∷◌, ◌++◌, map, ℕ_discrete,
}

abbrev pub drop : ℕ → Text → Text
drop zero s = s
drop (suc n) [] = []
drop (suc n) (c ∷ s) = drop n s

-- The text before the first character of a class, and the text from there on.
abbrev pub until : (ℕ → Bool) → Text → Text
until p [] = []
until p (c ∷ s) = let rest = until p s in if p c then [] else c ∷ rest

abbrev pub from : (ℕ → Bool) → Text → Text
from p [] = []
from p (c ∷ s) = let rest = from p s in if p c then c ∷ s else rest

abbrev pub push_before : ℕ → Option (Text × Text) → Option (Text × Text)
push_before c none = none
push_before c (some (before, found)) = some (c ∷ before, found)

-- The first suffix that a test accepts, which is not empty, and what stands before it.
abbrev pub find_suffix : (Text → Bool) → Text → Option (Text × Text)
find_suffix test [] = none
find_suffix test (c ∷ s) =
    let later = push_before c (find_suffix test s) in
    if test (c ∷ s) then some ([], c ∷ s) else later

-- `text.find(pattern)`
abbrev pub find : Text → Text → Option (Text × Text)
find pattern s = find_suffix (λ t. starts_with t pattern) s

abbrev pub followed_by : Text → Option Text → Option Text
followed_by before none = none
followed_by before (some rest) = some (before ++ rest)

-- One round of a loop: a cut is masked, and the loop goes on behind it.
abbrev pub mask_at :
    Text → Option (Text × Text) → (Text × Text → Text) → (Text × Text → Option Text) → Option Text
mask_at s none mask next = some s
mask_at s (some cut) mask next = followed_by (mask cut) (next cut)

abbrev pub ends_user : ℕ → Bool
ends_user c = c == b'/' || is_whitespace c

unfoldable pub mask_home_from : ℕ → Text → Option Text
unfolding starts_with is_whitespace ℕ_discrete
mask_home_from zero s = none
mask_home_from (suc n) s =
    mask_at s (find (codes "/home/") s) (λ cut. cut.0 ++ codes "/home/<user>")
      (λ cut. mask_home_from n (from ends_user (drop 6 cut.1)))

unfoldable pub mask_home_paths : Text → Option Text
mask_home_paths s = mask_home_from (suc (length s)) s

-- The earlier of two places.
abbrev pub earlier : Option (Text × Text) → Option (Text × Text) → Option (Text × Text)
earlier none b = b
earlier (some a) none = some a
earlier (some a) (some b) = if leb (length a.0) (length b.0) then some a else some b

abbrev pub after_last : ℕ → Text → Option Text
after_last d [] = none
after_last d (c ∷ s) = elim (after_last d s) [
  | some rest ↦ some rest
  | none ↦ if c == d then some s else none
]

abbrev pub mask_user : Text → Text
mask_user authority = elim (after_last b'@' authority) [
  | none ↦ authority
  | some host ↦ codes "***@" ++ host
]

abbrev pub is_secret_start : ℕ → Bool
is_secret_start c = c == b'?' || c == b'#'

abbrev pub mask_tail : Text → Text
mask_tail tail =
    until is_secret_start tail
    ++ (if is_empty (from is_secret_start tail) then [] else codes "?***")

abbrev pub is_slash : ℕ → Bool
is_slash c = c == b'/'

abbrev pub mask_authority : Text → Text → Text
mask_authority scheme rest =
    scheme ++ (mask_user (until is_slash rest) ++ mask_tail (from is_slash rest))

-- An URL, split at the end of its scheme if it has one.
abbrev pub mask_split : Text → Option (Text × Text) → Text
mask_split url none = mask_authority [] url
mask_split url (some (before, found)) = mask_authority (before ++ codes "://") (drop 3 found)

unfoldable pub mask_url : Text → Text
unfolding starts_with ℕ_discrete
mask_url url = mask_split url (find (codes "://") url)

unfoldable pub mask_urls_from : ℕ → Text → Option Text
unfolding starts_with is_whitespace
mask_urls_from zero s = none
mask_urls_from (suc n) s =
    mask_at s (earlier (find (codes "http://") s) (find (codes "https://") s))
      (λ cut. cut.0 ++ mask_url (until is_whitespace cut.1))
      (λ cut. mask_urls_from n (from is_whitespace cut.1))

unfoldable pub mask_urls : Text → Option Text
mask_urls s = mask_urls_from (suc (length s)) s

abbrev pub ends_value : ℕ → Bool
ends_value c = is_whitespace c || (c == b'&' || c == b';')

-- `u8::to_ascii_lowercase`
abbrev pub lower : ℕ → ℕ
lower c = if is_ascii_upper c then c + 32 else c

abbrev pub starts_with_key : Text → Text → Bool
starts_with_key key s = starts_with (map lower s) key

-- The loop for one key; it goes on behind the mask.
unfoldable pub mask_key_from : ℕ → Text → Text → Option Text
unfolding starts_with is_whitespace ℕ_discrete
mask_key_from zero key s = none
mask_key_from (suc n) key s =
    mask_at s (find_suffix (starts_with_key key) s)
      (λ cut. cut.0 ++ (take (length key) cut.1 ++ codes "***"))
      (λ cut. mask_key_from n key (from ends_value (drop (length key) cut.1)))

abbrev pub and_then : Option Text → (Text → Option Text) → Option Text
and_then none f = none
and_then (some s) f = f s

abbrev pub mask_keys : List Text → Text → Option Text
mask_keys [] s = some s
mask_keys (key ∷ keys) s = and_then (mask_key_from (suc (length s)) key s) (λ t. mask_keys keys t)

abbrev pub secret_keys : List Text
secret_keys =
    codes "token="
    ∷ codes "password="
    ∷ codes "passwd="
    ∷ codes "secret="
    ∷ codes "apikey="
    ∷ codes "api_key="
    ∷ []

unfoldable pub mask_assignments : Text → Option Text
mask_assignments s = mask_keys secret_keys s
