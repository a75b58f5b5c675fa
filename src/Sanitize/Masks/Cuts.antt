-- ===== src/Sanitize/Masks/Cuts.antt =====
-- Cuts of a line, and what they keep of it (core/src/sanitize.rs).
use lyraos_desktop_updater.Prelude.{
  leb, nat_eq, option_eq, Bool-cases, length, all, take, text_list_eq, Text, text_eq, ℕ, zero, suc,
  ◌≤◌, ◌<◌, ◌≡◌, refl, ap, inl, inr, Bool, true, Option, none, some, [], ◌∷◌, ◌++◌, arith,
}
use lyraos_desktop_updater.Sanitize.Masks.{drop, until, from, push_before, find_suffix, earlier}

-- A found suffix is cut off, and is not empty.
abbrev pub IsCut : Text → Option (Text × Text) → Type 0
IsCut s none = Unit
IsCut s (some (before, found)) = (before ++ found ≡ s) × (0 < length found)

push_before-IsCut :
    (c : ℕ) (s : Text) (o : Option (Text × Text)) → IsCut s o → IsCut (c ∷ s) (push_before c o)
push_before-IsCut c s none h = tt
push_before-IsCut c s (some (before, found)) (e, n) = (ap (◌∷◌ c) e, n)

pub find_suffix-IsCut : (test : Text → Bool) (s : Text) → IsCut s (find_suffix test s)
find_suffix-IsCut test [] = tt
find_suffix-IsCut test (c ∷ s) = elim (Bool-cases (test (c ∷ s))) [
  | inl e ↦ rw e (refl, omega arith)
  | inr e ↦ rw e (push_before-IsCut c s (find_suffix test s) (find_suffix-IsCut test s))
]

pub earlier-IsCut :
    (s : Text) (a b : Option (Text × Text)) → IsCut s a → IsCut s b → IsCut s (earlier a b)
earlier-IsCut s none b h k = k
earlier-IsCut s (some a) none h k = h
earlier-IsCut s (some a) (some b) h k = elim (Bool-cases (leb (length a.0) (length b.0))) [
  | inl e ↦ rw e h
  | inr e ↦ rw e k
]

pub length-drop-le : (n : ℕ) (s : Text) → length (drop n s) ≤ length s
length-drop-le zero s = omega arith
length-drop-le (suc n) [] = omega arith
length-drop-le (suc n) (c ∷ s) = let ih = length-drop-le n s in omega arith

pub length-drop-lt : (n : ℕ) (s : Text) → 0 < length s → length (drop (suc n) s) < length s
length-drop-lt n [] h = absurd (omega arith)
length-drop-lt n (c ∷ s) h = let le = length-drop-le n s in omega arith

pub length-from-le : (p : ℕ → Bool) (s : Text) → length (from p s) ≤ length s
length-from-le p [] = omega arith
length-from-le p (c ∷ s) = let ih = length-from-le p s in ground arith

module _ (p : ℕ → Bool) where
  pub all-append : (s t : Text) → all p s ≡ true → all p t ≡ true → all p (s ++ t) ≡ true
  all-append [] t h k = k
  all-append (c ∷ s) t h k = let ih = all-append s t in ground arith

  pub all-append_left : (s t : Text) → all p (s ++ t) ≡ true → all p s ≡ true
  all-append_left [] t h = refl
  all-append_left (c ∷ s) t h = let ih = all-append_left s t in ground arith

  pub all-append_right : (s t : Text) → all p (s ++ t) ≡ true → all p t ≡ true
  all-append_right [] t h = h
  all-append_right (c ∷ s) t h = let ih = all-append_right s t in ground arith

  pub all-drop : (n : ℕ) (s : Text) → all p s ≡ true → all p (drop n s) ≡ true
  all-drop zero s h = h
  all-drop (suc n) [] h = h
  all-drop (suc n) (c ∷ s) h = all-drop n s (ground arith)

  pub all-take : (n : ℕ) (s : Text) → all p s ≡ true → all p (take n s) ≡ true
  all-take zero s h = refl
  all-take (suc n) [] h = refl
  all-take (suc n) (c ∷ s) h = let ih = all-take n s in ground arith

  pub all-until : (q : ℕ → Bool) (s : Text) → all p s ≡ true → all p (until q s) ≡ true
  all-until q [] h = refl
  all-until q (c ∷ s) h = let ih = all-until q s in ground arith

  pub all-from : (q : ℕ → Bool) (s : Text) → all p s ≡ true → all p (from q s) ≡ true
  all-from q [] h = refl
  all-from q (c ∷ s) h = let ih = all-from q s in ground arith
