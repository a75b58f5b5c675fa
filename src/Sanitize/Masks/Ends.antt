-- ===== src/Sanitize/Masks/Ends.antt =====
-- The loops of the masks end: each round leaves less of the line (core/src/sanitize.rs).
use lyraos_desktop_updater.Prelude.{
  leb, ◌==◌, nat_eq, option_eq, is_some, Bool-cases, ==_iff, and_left, length, is_empty, any,
  length-append, text_list_eq, is_whitespace, starts_with, Text, codes, text_eq, ℕ, zero, suc, ◌+◌,
  ◌≤◌, ◌<◌, ◌≡◌, refl, sym, ap, ◌∙◌, subst, inl, inr, Bool, true, false, Option, none, some, List,
  [], ◌∷◌, arith, ℕ_discrete,
}
use lyraos_desktop_updater.Sanitize.Masks.{
  secret_keys, ends_value, mask_assignments, mask_urls, starts_with_key, mask_keys, mask_home_paths,
  mask_urls_from, and_then, earlier, mask_key_from, ends_user, find, mask_home_from, mask_at,
  push_before, followed_by, drop, from, find_suffix,
}
use lyraos_desktop_updater.Sanitize.Masks.Cuts.{
  earlier-IsCut, length-drop-lt, length-from-le, IsCut, find_suffix-IsCut,
}

is_some-followed_by :
    (s : Text) (o : Option Text) → is_some o ≡ true → is_some (followed_by s o) ≡ true
is_some-followed_by s none h = h
is_some-followed_by s (some t) h = refl

is_some-mask_at :
    (s : Text) (o : Option (Text × Text)) (mask : Text × Text → Text)
    (next : Text × Text → Option Text)
    → IsCut s o
    → ((before found : Text)
        → o ≡ some (before, found)
        → length found ≤ length s
        → 0 < length found
        → is_some (next (before, found)) ≡ true)
    → is_some (mask_at s o mask next) ≡ true
is_some-mask_at s none mask next c k = refl
is_some-mask_at s (some (before, found)) mask next (e, n) k =
    let whole : length before + length found ≡ length s =
      sym (length-append before found) ∙ ap length e in
    is_some-followed_by (mask (before, found)) (next (before, found))
      (k before found refl (omega arith) n)

is_some-mask_home_from : (n : ℕ) (s : Text) → length s < n → is_some (mask_home_from n s) ≡ true
unfolding mask_home_from
is_some-mask_home_from zero s h = absurd (omega arith)
is_some-mask_home_from (suc n) s h =
    is_some-mask_at s (find (codes "/home/") s) _ _
      (find_suffix-IsCut (λ t. starts_with t (codes "/home/")) s)
      (λ before found e le pos.
        let shorter = length-drop-lt 5 found pos in
        let rest = length-from-le ends_user (drop 6 found) in
        is_some-mask_home_from n (from ends_user (drop 6 found)) (omega arith))

-- What is found passes the test.
abbrev Passes : (Text → Bool) → Option (Text × Text) → Type 0
Passes test none = Unit
Passes test (some (before, found)) = test found ≡ true

push_before-Passes :
    (test : Text → Bool) (c : ℕ) (o : Option (Text × Text))
    → Passes test o
    → Passes test (push_before c o)
push_before-Passes test c none h = tt
push_before-Passes test c (some cut) h = h

find_suffix-Passes : (test : Text → Bool) (s : Text) → Passes test (find_suffix test s)
find_suffix-Passes test [] = tt
find_suffix-Passes test (c ∷ s) = elim (Bool-cases (test (c ∷ s))) [
  | inl e ↦ rw e e
  | inr e ↦ rw e (push_before-Passes test c (find_suffix test s) (find_suffix-Passes test s))
]

-- An URL starts with a letter, which is no whitespace.
length-from-lt :
    (found pattern : Text)
    → starts_with found (b'h' ∷ pattern) ≡ true
    → length (from is_whitespace found) < length found
unfolding starts_with is_whitespace ℕ_discrete
length-from-lt [] pattern h = cc
length-from-lt (c ∷ s) pattern h =
    let le = length-from-le is_whitespace s in
    let e = (==_iff c b'h').0 (and_left (c == b'h') (starts_with s pattern) h) in rw e (omega arith)

-- What a search for an URL finds is longer than what is left behind the URL.
abbrev IsUrl : Option (Text × Text) → Type 0
IsUrl none = Unit
IsUrl (some (before, found)) = length (from is_whitespace found) < length found

find-IsUrl :
    (pattern : Text) (o : Option (Text × Text))
    → Passes (λ t. starts_with t (b'h' ∷ pattern)) o
    → IsUrl o
find-IsUrl pattern none h = tt
find-IsUrl pattern (some (before, found)) h = length-from-lt found pattern h

earlier-IsUrl : (a b : Option (Text × Text)) → IsUrl a → IsUrl b → IsUrl (earlier a b)
earlier-IsUrl none b h k = k
earlier-IsUrl (some a) none h k = h
earlier-IsUrl (some a) (some b) h k = elim (Bool-cases (leb (length a.0) (length b.0))) [
  | inl e ↦ rw e h
  | inr e ↦ rw e k
]

is_some-mask_urls_from : (n : ℕ) (s : Text) → length s < n → is_some (mask_urls_from n s) ≡ true
unfolding mask_urls_from
is_some-mask_urls_from zero s h = absurd (omega arith)
is_some-mask_urls_from (suc n) s h =
    is_some-mask_at s (earlier (find (codes "http://") s) (find (codes "https://") s)) _ _
      (earlier-IsCut s (find (codes "http://") s) (find (codes "https://") s)
        (find_suffix-IsCut (λ t. starts_with t (codes "http://")) s)
        (find_suffix-IsCut (λ t. starts_with t (codes "https://")) s))
      (λ before found e le pos.
        let shorter = subst IsUrl e (
          earlier-IsUrl (find (codes "http://") s) (find (codes "https://") s)
            (find-IsUrl (codes "ttp://") (find (codes "http://") s)
              (find_suffix-Passes (λ t. starts_with t (codes "http://")) s))
            (find-IsUrl (codes "ttps://") (find (codes "https://") s)
              (find_suffix-Passes (λ t. starts_with t (codes "https://")) s))) in
        is_some-mask_urls_from n (from is_whitespace found) (omega arith))

is_some-mask_key_from :
    (n : ℕ) (k : ℕ) (key s : Text) → length s < n → is_some (mask_key_from n (k ∷ key) s) ≡ true
unfolding mask_key_from
is_some-mask_key_from zero k key s h = absurd (omega arith)
is_some-mask_key_from (suc n) k key s h =
    is_some-mask_at s (find_suffix (starts_with_key (k ∷ key)) s) _ _
      (find_suffix-IsCut (starts_with_key (k ∷ key)) s)
      (λ before found e le pos.
        let shorter = length-drop-lt (length key) found pos in
        let rest = length-from-le ends_value (drop (suc (length key)) found) in
        is_some-mask_key_from n k key (from ends_value (drop (suc (length key)) found))
          (omega arith))

is_some-and_then :
    (o : Option Text) (f : Text → Option Text)
    → is_some o ≡ true
    → ((s : Text) → is_some (f s) ≡ true)
    → is_some (and_then o f) ≡ true
is_some-and_then none f h k = cc
is_some-and_then (some s) f h k = k s

is_some-mask_keys :
    (keys : List Text) (s : Text) → any is_empty keys ≡ false → is_some (mask_keys keys s) ≡ true
is_some-mask_keys [] s h = refl
is_some-mask_keys ([] ∷ keys) s h = cc
is_some-mask_keys ((k ∷ key) ∷ keys) s h =
    is_some-and_then (mask_key_from (suc (length s)) (k ∷ key) s) _
      (is_some-mask_key_from (suc (length s)) k key s (omega arith))
      (λ t. is_some-mask_keys keys t h)

-- The three masks, one after the other.
pub is_some-masks :
    (o : Option Text)
    → is_some o ≡ true
    → is_some (and_then (and_then (and_then o mask_home_paths) mask_urls) mask_assignments) ≡ true
unfolding mask_home_paths mask_urls mask_assignments
is_some-masks o h =
    is_some-and_then (and_then (and_then o mask_home_paths) mask_urls) mask_assignments
      (is_some-and_then (and_then o mask_home_paths) mask_urls
        (is_some-and_then o mask_home_paths h
          (λ s. is_some-mask_home_from (suc (length s)) s (omega arith)))
        (λ s. is_some-mask_urls_from (suc (length s)) s (omega arith)))
      (λ s. is_some-mask_keys secret_keys s refl)
