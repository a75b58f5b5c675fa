-- ===== src/Prelude/Sorting.antt =====
-- `sort`, `sort_by` and `dedup`: a stable sort by insertion, and the removal of repetitions that stand
-- side by side.
use Prim.Native.Nat.{Ordering}
use Prim.Native.Nat.Ordering.{lt}
use mathlib.Core.Path.{◌≡◌, refl, sym, ◌∙◌}
use mathlib.Core.Logic.{inl, inr, ∥∥₁_elim}
use mathlib.Core.Bool.{Bool, true, false}
use mathlib.Core.Option.{some}
use mathlib.Core.List.{List, [], ◌∷◌, Memᴰ, Perm, Permᴰ}
use mathlib.Core.List.Perm
use native.Mathlib.Omega.{arith}
use lyraos_desktop_updater.Prelude.Tests.{
  ◌==◌, Eq, if◌then◌else◌, Bool-cases, some_ne_none, some_inj,
}
use lyraos_desktop_updater.Prelude.Lists.{any, first}
use lyraos_desktop_updater.Prelude.Texts.{Text}
use lyraos_desktop_updater.Prelude.Orders.{IsLawful, is_gt, compare_text}

module _ {ℓ} {A : Type ℓ} (cmp : A → A → Ordering) where
  unfoldable pub insert_sorted : A → List A → List A
  insert_sorted x [] = x ∷ []
  insert_sorted x (y ∷ ys) = if is_gt (cmp x y) then y ∷ insert_sorted x ys else x ∷ y ∷ ys

  -- Equal elements keep their order.
  unfoldable pub sort_by : List A → List A
  unfolding insert_sorted
  sort_by [] = []
  sort_by (x ∷ xs) = insert_sorted x (sort_by xs)

  insert_sorted-perm : (x : A) (xs : List A) → Perm (insert_sorted x xs) (x ∷ xs)
  unfolding insert_sorted
  insert_sorted-perm x [] = Perm.refl (x ∷ [])
  insert_sorted-perm x (y ∷ ys) = elim (Bool-cases (is_gt (cmp x y))) [
    | inl after ↦ rw after (Perm.trans (Perm.cons y (insert_sorted-perm x ys)) (Perm.swap x y ys))
    | inr before ↦ rw before (Perm.refl (x ∷ y ∷ ys))
  ]

  pub sort_by-perm : (xs : List A) → Perm (sort_by xs) xs
  unfolding sort_by
  sort_by-perm [] = Perm.refl []
  sort_by-perm (x ∷ xs) =
      Perm.trans (insert_sorted-perm x (sort_by xs)) (Perm.cons x (sort_by-perm xs))

  any-insert_sorted :
      (p : A → Bool) (x : A) (xs : List A) → any p (insert_sorted x xs) ≡ any p (x ∷ xs)
  unfolding insert_sorted
  any-insert_sorted p x [] = refl
  any-insert_sorted p x (y ∷ ys) = ground (arith, any-insert_sorted p x ys)

  pub any-sort_by : (p : A → Bool) (xs : List A) → any p (sort_by xs) ≡ any p xs
  unfolding sort_by
  any-sort_by p [] = refl
  any-sort_by p (x ∷ xs) = ground (arith, any-insert_sorted p x (sort_by xs), any-sort_by p xs)

  abbrev pub IsHeadAfter : A → List A → Type 0
  IsHeadAfter x [] = Unit
  IsHeadAfter x (y ∷ ys) = is_gt (cmp x y) ≡ false

  -- Every element stands in order before the next.
  abbrev pub IsSorted : List A → Type 0
  IsSorted [] = Unit
  IsSorted (x ∷ xs) = IsHeadAfter x xs × IsSorted xs

  abbrev pub IsStrictFrom : A → List A → Type 0
  IsStrictFrom x [] = Unit
  IsStrictFrom x (y ∷ ys) = (cmp x y ≡ lt) × IsStrictFrom y ys

  -- Every element stands strictly below the next.
  abbrev pub IsStrict : List A → Type 0
  IsStrict [] = Unit
  IsStrict (x ∷ xs) = IsStrictFrom x xs

module _ {ℓ} {A : Type ℓ} ⦃e : Eq A⦄ where
  -- The elements behind a retained one: those equal to the last retained element go.
  unfoldable pub dedup_from : A → List A → List A
  dedup_from x [] = []
  dedup_from x (y ∷ ys) = elim (x == y) [ true ↦ dedup_from x ys | false ↦ y ∷ dedup_from y ys ]

  unfoldable pub dedup : List A → List A
  unfolding dedup_from
  dedup [] = []
  dedup (x ∷ xs) = x ∷ dedup_from x xs

  any-dedup_from :
      (p : A → Bool) (x : A) (xs : List A) → any p (x ∷ dedup_from x xs) ≡ any p (x ∷ xs)
  unfolding dedup_from
  any-dedup_from p x [] = refl
  any-dedup_from p x (y ∷ ys) = ground (arith, any-dedup_from p x ys, any-dedup_from p y ys)

  pub any-dedup : (p : A → Bool) (xs : List A) → any p (dedup xs) ≡ any p xs
  unfolding dedup
  any-dedup p [] = refl
  any-dedup p (x ∷ xs) = any-dedup_from p x xs

module _ {ℓ} {A : Type ℓ} ⦃e : Eq A⦄ {cmp : A → A → Ordering} (o : IsLawful cmp) where
  IsHeadAfter-insert_sorted :
      (y x : A) (ys : List A)
      → IsHeadAfter cmp y ys
      → is_gt (cmp y x) ≡ false
      → IsHeadAfter cmp y (insert_sorted cmp x ys)
  unfolding insert_sorted
  IsHeadAfter-insert_sorted y x [] h k = k
  IsHeadAfter-insert_sorted y x (z ∷ zs) h k = ground arith

  insert_sorted-IsSorted :
      (x : A) (xs : List A) → IsSorted cmp xs → IsSorted cmp (insert_sorted cmp x xs)
  unfolding insert_sorted
  insert_sorted-IsSorted x [] s = (tt, tt)
  insert_sorted-IsSorted x (y ∷ ys) (h, s) = elim (Bool-cases (is_gt (cmp x y))) [
    | inl after ↦ rw after (
      IsHeadAfter-insert_sorted y x ys h (ground (arith, o.lt_of_gt x y)),
      insert_sorted-IsSorted x ys s,
    )
    | inr before ↦ rw before (before, (h, s))
  ]

  pub sort_by-IsSorted : (xs : List A) → IsSorted cmp (sort_by cmp xs)
  unfolding sort_by
  sort_by-IsSorted [] = tt
  sort_by-IsSorted (x ∷ xs) = insert_sorted-IsSorted x (sort_by cmp xs) (sort_by-IsSorted xs)

  dedup_from-IsStrictFrom :
      (x : A) (xs : List A)
      → IsHeadAfter cmp x xs
      → IsSorted cmp xs
      → IsStrictFrom cmp x (dedup_from x xs)
  unfolding dedup_from
  dedup_from-IsStrictFrom x [] h s = tt
  dedup_from-IsStrictFrom x (y ∷ ys) h (k, s) =
      ground
        (arith, o.eq_of_cmp x y, dedup_from-IsStrictFrom x ys, dedup_from-IsStrictFrom y ys k s)

  -- Sorting and removing repetitions leaves a strictly ascending list.
  pub dedup-sort_by-IsStrict : (xs : List A) → IsStrict cmp (dedup (sort_by cmp xs))
  unfolding dedup
  dedup-sort_by-IsStrict xs = go (sort_by cmp xs) (sort_by-IsSorted xs)
    where
      go : (ys : List A) → IsSorted cmp ys → IsStrict cmp (dedup ys)
      go [] s = tt
      go (y ∷ ys) (h, s) = dedup_from-IsStrictFrom y ys h s

module _ {ℓ} {A : Type ℓ} {cmp : A → A → Ordering} (o : IsLawful cmp) where
  -- Two insertions can be exchanged.
  insert_sorted_comm :
      (x y : A) (zs : List A)
      → insert_sorted cmp x (insert_sorted cmp y zs) ≡ insert_sorted cmp y (insert_sorted cmp x zs)
  unfolding insert_sorted
  insert_sorted_comm x y [] =
      ground (arith, o.eq_of_cmp x y, o.lt_of_gt x y, o.gt_of_lt x y, o.cmp_refl x)
  insert_sorted_comm x y (z ∷ zs) = ground (
    arith,
    o.eq_of_cmp x y,
    o.eq_of_cmp x z,
    o.eq_of_cmp y z,
    o.lt_of_gt x y,
    o.lt_of_gt x z,
    o.lt_of_gt y z,
    o.gt_of_lt x y,
    o.gt_of_lt y x,
    o.lt_trans x z y,
    o.lt_trans y z x,
    o.cmp_refl x,
    o.cmp_refl z,
    insert_sorted_comm x y zs,
  )

  Permᴰ-sort_by-eq : {xs ys : List A} → Permᴰ xs ys → sort_by cmp xs ≡ sort_by cmp ys
  unfolding sort_by
  Permᴰ-sort_by-eq Permᴰ.nil = refl
  Permᴰ-sort_by-eq (Permᴰ.cons e p) = let rest = Permᴰ-sort_by-eq p in cc
  Permᴰ-sort_by-eq (Permᴰ.swap {a = a} {b = b} {l = l} d e) =
      let exchange = insert_sorted_comm a b (sort_by cmp l) in cc
  Permᴰ-sort_by-eq (Permᴰ.trans p q) = Permᴰ-sort_by-eq p ∙ Permᴰ-sort_by-eq q

  -- Two lists of the same elements sort to the same list.
  pub perm-sort_by-eq : IsSet A → {xs ys : List A} → Perm xs ys → sort_by cmp xs ≡ sort_by cmp ys
  perm-sort_by-eq s p = let set : IsSet (List A) = hlevel s in ∥∥₁_elim p (set _ _) Permᴰ-sort_by-eq

module _ {ℓ κ} {A : Type ℓ} {K : Type κ} {f : K → K → Ordering} (o : IsLawful f) (key : A → K) where
  abbrev by_key : A → A → Ordering
  by_key x y = f (key x) (key y)

  not_gt_trans : (a b c : K) → is_gt (f a b) ≡ false → is_gt (f b c) ≡ false → is_gt (f a c) ≡ false
  not_gt_trans a b c h k =
      ground (arith, o.eq_of_cmp a b, o.eq_of_cmp b c, o.lt_trans a b c, o.cmp_refl a)

  -- What stands first after an insertion.
  first-insert_sorted :
      (y : A) (s : List A)
      → (h : A) × (first (insert_sorted by_key y s) ≡ some h)
        × (is_gt (f (key h) (key y)) ≡ false)
        × ((z : A) → first s ≡ some z → is_gt (f (key h) (key z)) ≡ false)
  unfolding insert_sorted
  first-insert_sorted y [] =
      (y, refl, rw (o.cmp_refl (key y)), λ z e. absurd (some_ne_none (sym e)))
  first-insert_sorted y (z ∷ zs) = elim (Bool-cases (is_gt (f (key y) (key z)))) [
    | inl after ↦ (
      z,
      rw after,
      ground (arith, o.lt_of_gt (key y) (key z)),
      λ u e. let same = some_inj e in ground (arith, o.cmp_refl (key z)),
    )
    | inr before ↦
        (y, rw before, rw (o.cmp_refl (key y)), λ u e. let same = some_inj e in ground arith)
  ]

  -- What stands first after the sort is behind no element.
  pub first-sort_by :
      (xs : List A) {x : A}
      → Memᴰ x xs
      → (h : A) × (first (sort_by by_key xs) ≡ some h) × (is_gt (f (key h) (key x)) ≡ false)
  unfolding sort_by
  first-sort_by [] m = elim m [ ]
  first-sort_by (y ∷ ys) (Memᴰ.head same) =
      let (h, e, le, rest) = first-insert_sorted y (sort_by by_key ys) in (h, e, rw same le)
  first-sort_by (y ∷ ys) {x} (Memᴰ.tail m) =
      let (h, e, le, rest) = first-insert_sorted y (sort_by by_key ys) in
      let (h', e', le') = first-sort_by ys m in
      (h, e, not_gt_trans (key h) (key h') (key x) (rest h' e') le')

unfoldable pub sort_texts : List Text → List Text
unfolding sort_by compare_text
sort_texts = sort_by compare_text
