-- ===== src/Prelude/Lists.antt =====
-- Lists: iterator tests, and membership. The order of arguments is that of the method calls.
use Prim.Native.Nat.{ℕ, zero, suc, ◌+◌, ◌≤◌}
use mathlib.Core.Path.{◌≡◌, refl, sym, ap}
use mathlib.Core.Logic.{◌↔◌, ◌⊎◌, inl, inr}
use mathlib.Core.Bool.{Bool, true, false, not, ◌&&◌, ◌||◌}
use mathlib.Core.Option.{Option, none, some}
use mathlib.Core.List.{List, [], ◌∷◌, ◌++◌, map, Memᴰ}
use native.Mathlib.Omega.{arith}
use lyraos_desktop_updater.Prelude.Tests.{◌==◌, Eq, if◌then◌else◌, Bool-cases, ==_iff}

module _ {ℓ} {A : Type ℓ} where
  abbrev pub length : List A → ℕ
  length [] = 0
  length (_ ∷ xs) = suc (length xs)

  abbrev pub is_empty : List A → Bool
  is_empty [] = true
  is_empty (_ ∷ _) = false

  abbrev pub first : List A → Option A
  first [] = none
  first (x ∷ _) = some x

  abbrev pub any : (A → Bool) → List A → Bool
  any p [] = false
  any p (x ∷ xs) = p x || any p xs

  abbrev pub all : (A → Bool) → List A → Bool
  all p [] = true
  all p (x ∷ xs) = p x && all p xs

  -- `.iter().enumerate().all(p)`, counting from the first argument.
  abbrev pub all_at : ℕ → (ℕ → A → Bool) → List A → Bool
  all_at i p [] = true
  all_at i p (x ∷ xs) = p i x && all_at (suc i) p xs

  -- `.filter(p)`
  abbrev pub keep : (A → Bool) → List A → List A
  keep p [] = []
  keep p (x ∷ xs) = if p x then x ∷ keep p xs else keep p xs

  abbrev pub take : ℕ → List A → List A
  take zero xs = []
  take (suc n) [] = []
  take (suc n) (x ∷ xs) = x ∷ take n xs

  abbrev pub replicate : ℕ → A → List A
  replicate zero a = []
  replicate (suc n) a = a ∷ replicate n a

  pub any-Memᴰ : (p : A → Bool) (xs : List A) {x : A} → Memᴰ x xs → p x ≡ true → any p xs ≡ true
  any-Memᴰ p [] m h = elim m [ ]
  any-Memᴰ p (y ∷ ys) (Memᴰ.head e) h = let h' : p y ≡ true = cc in ground arith
  any-Memᴰ p (y ∷ ys) (Memᴰ.tail m) h = ground (arith, any-Memᴰ p ys m h)

  pub any-elim : (p : A → Bool) (xs : List A) → any p xs ≡ true → (x : A) × Memᴰ x xs × (p x ≡ true)
  any-elim p [] h = cc
  any-elim p (y ∷ ys) h = elim (Bool-cases (p y)) [
    | inl here ↦ (y, Memᴰ.head refl, here)
    | inr other ↦ let (x, m, e) = any-elim p ys (ground arith) in (x, Memᴰ.tail m, e)
  ]

  pub all-Memᴰ : (p : A → Bool) (xs : List A) {x : A} → all p xs ≡ true → Memᴰ x xs → p x ≡ true
  all-Memᴰ p [] h m = elim m [ ]
  all-Memᴰ p (y ∷ ys) h (Memᴰ.head e) = let h' : p y ≡ true = ground arith in cc
  all-Memᴰ p (y ∷ ys) h (Memᴰ.tail m) = all-Memᴰ p ys (ground arith) m

  pub all_intro :
      (p : A → Bool) (xs : List A) → ((x : A) → Memᴰ x xs → p x ≡ true) → all p xs ≡ true
  all_intro p [] h = refl
  all_intro p (y ∷ ys) h =
      ground (arith, h y (Memᴰ.head refl), all_intro p ys (λ x m. h x (Memᴰ.tail m)))

  pub length-append : (xs ys : List A) → length (xs ++ ys) ≡ length xs + length ys
  length-append [] ys = omega arith
  length-append (x ∷ xs) ys = omega (arith, length-append xs ys)

module _ {ℓ} {A : Type ℓ} where
  pub Memᴰ-append_left : (xs ys : List A) {x : A} → Memᴰ x xs → Memᴰ x (xs ++ ys)
  Memᴰ-append_left [] ys m = elim m [ ]
  Memᴰ-append_left (y ∷ xs) ys (Memᴰ.head e) = Memᴰ.head e
  Memᴰ-append_left (y ∷ xs) ys (Memᴰ.tail m) = Memᴰ.tail (Memᴰ-append_left xs ys m)

  pub Memᴰ-append_right : (xs ys : List A) {x : A} → Memᴰ x ys → Memᴰ x (xs ++ ys)
  Memᴰ-append_right [] ys m = m
  Memᴰ-append_right (y ∷ xs) ys m = Memᴰ.tail (Memᴰ-append_right xs ys m)

  pub Memᴰ-append_cases : (xs ys : List A) {x : A} → Memᴰ x (xs ++ ys) → Memᴰ x xs ⊎ Memᴰ x ys
  Memᴰ-append_cases [] ys m = inr m
  Memᴰ-append_cases (y ∷ xs) ys (Memᴰ.head e) = inl (Memᴰ.head e)
  Memᴰ-append_cases (y ∷ xs) ys (Memᴰ.tail m) = elim (Memᴰ-append_cases xs ys m) [
    | inl l ↦ inl (Memᴰ.tail l)
    | inr r ↦ inr r
  ]

module _ {ℓ} {A : Type ℓ} where
  pub is_empty-append : (xs ys : List A) → is_empty (xs ++ ys) ≡ (is_empty xs && is_empty ys)
  is_empty-append [] ys = refl
  is_empty-append (x ∷ xs) ys = refl

  -- A list is empty when no test finds an element.
  pub is_empty-any : (xs : List A) → any (λ _. true) xs ≡ false → is_empty xs ≡ true
  is_empty-any [] h = refl
  is_empty-any (x ∷ xs) h = cc

  pub any-is_empty : (p : A → Bool) (xs : List A) → is_empty xs ≡ true → any p xs ≡ false
  any-is_empty p [] h = refl
  any-is_empty p (x ∷ xs) h = cc

  pub any-append : (p : A → Bool) (xs ys : List A) → any p (xs ++ ys) ≡ (any p xs || any p ys)
  any-append p [] ys = refl
  any-append p (x ∷ xs) ys = ground (arith, any-append p xs ys)

module _ {ℓ} {A : Type ℓ} (p : A → Bool) where
  pub is_empty-keep : (xs : List A) → is_empty (keep p xs) ≡ not (any p xs)
  is_empty-keep [] = refl
  is_empty-keep (x ∷ xs) = ground (arith, is_empty-keep xs)

  length-keep-le : (xs : List A) → length (keep p xs) ≤ length xs
  length-keep-le [] = omega arith
  length-keep-le (x ∷ xs) = ground (arith, length-keep-le xs)

  -- A filter keeps the length exactly when every element passes.
  pub length-keep_iff : (xs : List A) → (length (keep p xs) ≡ length xs) ↔ (all p xs ≡ true)
  length-keep_iff [] = (λ _. refl, λ _. refl)
  length-keep_iff (x ∷ xs) =
      let rest = length-keep_iff xs in
      let bound = length-keep-le xs in
      (λ h. ground (arith, rest.0, bound), λ h. ground (arith, rest.1))

module _ {ℓ} {A : Type ℓ} ⦃e : Eq A⦄ where
  -- `xs.contains(&x)`
  abbrev pub contains : List A → A → Bool
  contains xs x = any (λ y. y == x) xs

  pub contains-Memᴰ : (xs : List A) (x : A) → contains xs x ≡ true → Memᴰ x xs
  contains-Memᴰ [] x h = cc
  contains-Memᴰ (y ∷ ys) x h = elim (Bool-cases (y == x)) [
    | inl here ↦ Memᴰ.head (sym ((==_iff y x).0 here))
    | inr other ↦ Memᴰ.tail (contains-Memᴰ ys x (ground arith))
  ]

  pub Memᴰ-contains : (xs : List A) {x : A} → Memᴰ x xs → contains xs x ≡ true
  Memᴰ-contains [] m = elim m [ ]
  Memᴰ-contains (y ∷ ys) (Memᴰ.head p) = ground arith
  Memᴰ-contains (y ∷ ys) (Memᴰ.tail m) = ground (arith, Memᴰ-contains ys m)

  -- The distinct elements, as `collect::<BTreeSet<_>>` keeps them (up to order).
  abbrev pub unique : List A → List A
  unique [] = []
  unique (x ∷ xs) = let rest = unique xs in if contains xs x then rest else x ∷ rest

  -- No element stands twice.
  abbrev pub IsDistinct : List A → Type 0
  IsDistinct [] = Unit
  IsDistinct (x ∷ xs) = (contains xs x ≡ false) × IsDistinct xs

  pub length-unique-le : (xs : List A) → length (unique xs) ≤ length xs
  length-unique-le [] = omega arith
  length-unique-le (x ∷ xs) = ground (arith, length-unique-le xs)

  -- `set.len() != list.len()` finds exactly the repetitions.
  pub IsDistinct-iff : (xs : List A) → (length (unique xs) ≡ length xs) ↔ IsDistinct xs
  IsDistinct-iff [] = (λ _. tt, λ _. refl)
  IsDistinct-iff (x ∷ xs) = (
    λ h. (
      ground (arith, length-unique-le xs),
      (IsDistinct-iff xs).0 (ground (arith, length-unique-le xs)),
    ),
    λ (new, rest). ground (arith, (IsDistinct-iff xs).1 rest),
  )

module _ {ℓ} {A : Type ℓ} ⦃e : Eq A⦄ where
  remove_first : A → List A → List A
  remove_first x [] = []
  remove_first x (y ∷ ys) = if y == x then ys else y ∷ remove_first x ys

  contains-remove_first :
      (x z : A) (ys : List A)
      → contains ys z ≡ true
      → (x ≡ z) ⊎ (contains (remove_first x ys) z ≡ true)
  unfolding remove_first
  contains-remove_first x z [] h = cc
  contains-remove_first x z (y ∷ ys) h = ground (arith, contains-remove_first x z ys)

  length-remove_first :
      (x : A) (ys : List A) → contains ys x ≡ true → length ys ≡ suc (length (remove_first x ys))
  unfolding remove_first
  length-remove_first x [] h = cc
  length-remove_first x (y ∷ ys) h = ground (arith, length-remove_first x ys)

  -- Distinct elements that fill a list of at most their number leave none of it out.
  pub pigeonhole :
      (xs ys : List A)
      → IsDistinct xs
      → ((x : A) → contains xs x ≡ true → contains ys x ≡ true)
      → length ys ≤ length xs
      → (y : A) → contains ys y ≡ true
      → contains xs y ≡ true
  pigeonhole [] [] d sub le y h = h
  pigeonhole [] (z ∷ zs) d sub le y h = absurd (omega arith)
  pigeonhole (x ∷ xs) ys (new, d) sub le y h =
      let here = sub x (ground arith) in
      elim (contains-remove_first x y ys h) [
        | inl same ↦ ground arith
        | inr rest ↦ ground (
          arith,
          pigeonhole xs (remove_first x ys) d (narrow x xs ys new sub)
              (ground (arith, length-remove_first x ys here)) y rest,
        )
      ]
    where
      narrow :
          (x : A) (xs ys : List A)
          → contains xs x ≡ false
          → ((z : A) → contains (x ∷ xs) z ≡ true → contains ys z ≡ true)
          → (z : A) → contains xs z ≡ true
          → contains (remove_first x ys) z ≡ true
      narrow x xs ys new sub z m = elim (contains-remove_first x z ys (sub z (ground arith))) [
        | inl same ↦ absurd (ground arith)
        | inr rest ↦ rest
      ]

pub length-map {ℓ κ} :
    {A : Type ℓ} {B : Type κ} (f : A → B) (xs : List A) → length (map f xs) ≡ length xs
length-map f [] = refl
length-map f (x ∷ xs) = ap suc (length-map f xs)

-- A test of all elements, with one added at the end, and a weaker one.
module _ {ℓ} {A : Type ℓ} where
  pub all-snoc :
      (p : A → Bool) (xs : List A) (x : A)
      → all p xs ≡ true
      → p x ≡ true
      → all p (xs ++ x ∷ []) ≡ true
  all-snoc p [] x h k = ground arith
  all-snoc p (y ∷ xs) x h k = ground (arith, all-snoc p xs x)

  pub all_weaken :
      (p q : A → Bool) (xs : List A)
      → ((x : A) → p x ≡ true → q x ≡ true)
      → all p xs ≡ true
      → all q xs ≡ true
  all_weaken p q [] w h = refl
  all_weaken p q (x ∷ xs) w h = ground (arith, w x, all_weaken p q xs w)
