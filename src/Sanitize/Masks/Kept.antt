-- ===== src/Sanitize/Masks/Kept.antt =====
-- A class of characters that holds the masks' own characters and those of a line holds those of the
-- masked line (core/src/sanitize.rs).
use lyraos_desktop_updater.Prelude.{
  nat_eq, option_eq, is_none_or, length, all, take, text_list_eq, is_whitespace, starts_with, Text,
  codes, text_eq, ℕ, zero, suc, ◌≡◌, refl, ap, ◌∙◌, Bool, true, Option, none, some, List, [], ◌∷◌,
  ◌++◌, arith,
}
use lyraos_desktop_updater.Sanitize.Masks.{
  ends_value, secret_keys, starts_with_key, mask_assignments, find_suffix, drop, earlier, mask_urls,
  mask_urls_from, mask_keys, mask_key_from, mask_home_paths, mask_split, and_then, from, is_slash,
  mask_url, is_secret_start, mask_tail, mask_authority, mask_at, mask_user, until, find,
  followed_by, ends_user, mask_home_from, after_last,
}
use lyraos_desktop_updater.Sanitize.Masks.Cuts.{
  all-take, earlier-IsCut, IsCut, find_suffix-IsCut, all-append, all-append_left, all-append_right,
  all-drop, all-until, all-from,
}

module _ (p : ℕ → Bool) where
  -- A result, if there is one, is of the class.
  abbrev pub Keeps : Option Text → Type 0
  Keeps o = is_none_or o (all p) ≡ true

  Keeps-after_last : (d : ℕ) (s : Text) → all p s ≡ true → Keeps (after_last d s)
  Keeps-after_last d [] h = refl
  Keeps-after_last d (c ∷ s) h = let ih = Keeps-after_last d s in ground arith

  pub Keeps-followed_by :
      (s : Text) (o : Option Text) → all p s ≡ true → Keeps o → Keeps (followed_by s o)
  Keeps-followed_by s none h k = refl
  Keeps-followed_by s (some t) h k = all-append p s t h k

  -- Both parts of a cut line are of the class.
  abbrev BothKept : Option (Text × Text) → Type 0
  BothKept none = Unit
  BothKept (some (before, found)) = (all p before ≡ true) × (all p found ≡ true)

  cut-BothKept : (s : Text) (o : Option (Text × Text)) → IsCut s o → all p s ≡ true → BothKept o
  cut-BothKept s none c h = tt
  cut-BothKept s (some (before, found)) (e, n) h =
      let whole : all p (before ++ found) ≡ true = ap (all p) e ∙ h in
      (all-append_left p before found whole, all-append_right p before found whole)

  Keeps-mask_at :
      (s : Text) (o : Option (Text × Text)) (mask : Text × Text → Text)
      (next : Text × Text → Option Text)
      → all p s ≡ true
      → IsCut s o
      → ((before found : Text)
          → all p before ≡ true
          → all p found ≡ true
          → (all p (mask (before, found)) ≡ true) × Keeps (next (before, found)))
      → Keeps (mask_at s o mask next)
  Keeps-mask_at s none mask next h c k = h
  Keeps-mask_at s (some (before, found)) mask next h c k =
      let (b, f) = cut-BothKept s (some (before, found)) c h in
      let (masked, later) = k before found b f in
      Keeps-followed_by (mask (before, found)) (next (before, found)) masked later

  Keeps-mask_home_from :
      all p (codes "/home/<user>") ≡ true
      → (n : ℕ) (s : Text) → all p s ≡ true
      → Keeps (mask_home_from n s)
  unfolding mask_home_from
  Keeps-mask_home_from home zero s h = refl
  Keeps-mask_home_from home (suc n) s h =
      Keeps-mask_at s (find (codes "/home/") s) _ _ h
        (find_suffix-IsCut (λ t. starts_with t (codes "/home/")) s)
        (λ before found b f. (
          all-append p before _ b home,
          Keeps-mask_home_from home n _ (all-from p ends_user _ (all-drop p 6 found f)),
        ))

  Keeps-mask_user :
      all p (codes "***@") ≡ true → (s : Text) → all p s ≡ true → all p (mask_user s) ≡ true
  Keeps-mask_user star s h = let host = Keeps-after_last b'@' s h in ground arith

  Keeps-mask_tail :
      all p (codes "?***") ≡ true → (s : Text) → all p s ≡ true → all p (mask_tail s) ≡ true
  Keeps-mask_tail star s h =
      all-append p (until is_secret_start s) _ (all-until p is_secret_start s h) (ground arith)

  Keeps-mask_authority :
      all p (codes "***@") ≡ true
      → all p (codes "?***") ≡ true
      → (scheme s : Text) → all p scheme ≡ true
      → all p s ≡ true
      → all p (mask_authority scheme s) ≡ true
  Keeps-mask_authority at query scheme s k h = all-append p scheme _ k (
      all-append p (mask_user (until is_slash s)) _
        (Keeps-mask_user at (until is_slash s) (all-until p is_slash s h))
        (Keeps-mask_tail query (from is_slash s) (all-from p is_slash s h)))

  -- The masks' own characters are of the class.
  abbrev pub MasksKept : Type 0
  MasksKept =
      (all p (codes "/home/<user>") ≡ true)
      × (all p (codes "***@") ≡ true)
      × (all p (codes "?***") ≡ true)
      × (all p (codes "://") ≡ true)
      × (all p (codes "***") ≡ true)

  Keeps-mask_split :
      MasksKept
      → (url : Text) (o : Option (Text × Text)) → all p url ≡ true
      → BothKept o
      → all p (mask_split url o) ≡ true
  Keeps-mask_split (_, at, query, slashes, _) url none h b =
      Keeps-mask_authority at query [] url refl h
  Keeps-mask_split (_, at, query, slashes, _) url (some (before, found)) h b =
      Keeps-mask_authority at query (before ++ codes "://") (drop 3 found)
        (all-append p before (codes "://") b.0 slashes) (all-drop p 3 found b.1)

  Keeps-mask_url : MasksKept → (url : Text) → all p url ≡ true → all p (mask_url url) ≡ true
  unfolding mask_url
  Keeps-mask_url own url h = Keeps-mask_split own url (find (codes "://") url) h (
      cut-BothKept url (find (codes "://") url)
        (find_suffix-IsCut (λ t. starts_with t (codes "://")) url) h)

  Keeps-mask_urls_from :
      MasksKept → (n : ℕ) (s : Text) → all p s ≡ true → Keeps (mask_urls_from n s)
  unfolding mask_urls_from
  Keeps-mask_urls_from own zero s h = refl
  Keeps-mask_urls_from own (suc n) s h =
      Keeps-mask_at s (earlier (find (codes "http://") s) (find (codes "https://") s)) _ _ h
        (earlier-IsCut s (find (codes "http://") s) (find (codes "https://") s)
          (find_suffix-IsCut (λ t. starts_with t (codes "http://")) s)
          (find_suffix-IsCut (λ t. starts_with t (codes "https://")) s))
        (λ before found b f. (
          all-append p before _ b
              (Keeps-mask_url own (until is_whitespace found) (all-until p is_whitespace found f)),
          Keeps-mask_urls_from own n (from is_whitespace found) (all-from p is_whitespace found f),
        ))

  Keeps-mask_key_from :
      MasksKept → (n : ℕ) (key s : Text) → all p s ≡ true → Keeps (mask_key_from n key s)
  unfolding mask_key_from
  Keeps-mask_key_from own zero key s h = refl
  Keeps-mask_key_from own (suc n) key s h =
      let (_, _, _, _, star) = own in
      Keeps-mask_at s (find_suffix (starts_with_key key) s) _ _ h
        (find_suffix-IsCut (starts_with_key key) s)
        (λ before found b f. (
          all-append p before _ b (
              all-append p (take (length key) found) (codes "***") (all-take p (length key) found f)
                star),
          Keeps-mask_key_from own n key (from ends_value (drop (length key) found))
              (all-from p ends_value _ (all-drop p (length key) found f)),
        ))

  Keeps-and_then :
      (o : Option Text) (f : Text → Option Text)
      → Keeps o
      → ((s : Text) → all p s ≡ true → Keeps (f s))
      → Keeps (and_then o f)
  Keeps-and_then none f h k = refl
  Keeps-and_then (some s) f h k = k s h

  Keeps-mask_keys :
      MasksKept → (keys : List Text) (s : Text) → all p s ≡ true → Keeps (mask_keys keys s)
  Keeps-mask_keys own [] s h = h
  Keeps-mask_keys own (key ∷ keys) s h =
      Keeps-and_then (mask_key_from (suc (length s)) key s) _
        (Keeps-mask_key_from own (suc (length s)) key s h) (λ t k. Keeps-mask_keys own keys t k)

  -- The three masks, one after the other.
  pub Keeps-masks :
      MasksKept
      → (o : Option Text) → Keeps o
      → Keeps (and_then (and_then (and_then o mask_home_paths) mask_urls) mask_assignments)
  unfolding mask_home_paths mask_urls mask_assignments
  Keeps-masks own o h =
      let (home, _, _, _, _) = own in
      Keeps-and_then (and_then (and_then o mask_home_paths) mask_urls) mask_assignments
        (Keeps-and_then (and_then o mask_home_paths) mask_urls
          (Keeps-and_then o mask_home_paths h
            (λ s k. Keeps-mask_home_from home (suc (length s)) s k))
          (λ s k. Keeps-mask_urls_from own (suc (length s)) s k))
        (λ s k. Keeps-mask_keys own secret_keys s k)
