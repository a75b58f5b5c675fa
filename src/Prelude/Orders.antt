-- ===== src/Prelude/Orders.antt =====
-- `Ord`: lawful comparisons, and the derived and combined ones.
use Prim.Native.Nat.{compare, Ordering}
use Prim.Native.Nat.Ordering.{lt, eq, gt}
use mathlib.Core.Path.{◌≡◌, refl, sym, ap}
use mathlib.Core.Bool.{Bool, true, false}
use mathlib.Core.Option.{Option, none, some}
use mathlib.Core.List.{[], ◌∷◌}
use native.Mathlib.Omega.{arith}
use lyraos_desktop_updater.Prelude.Texts.{Text}

-- What the trait `Ord` asks of `cmp`.
pub record IsLawful {ℓ} {A : Type ℓ} (cmp : A → A → Ordering) : Type ℓ where
  pub cmp_refl : (a : A) → cmp a a ≡ eq
  pub eq_of_cmp : (a b : A) → cmp a b ≡ eq → a ≡ b
  pub lt_of_gt : (a b : A) → cmp a b ≡ gt → cmp b a ≡ lt
  pub gt_of_lt : (a b : A) → cmp a b ≡ lt → cmp b a ≡ gt
  pub lt_trans : (a b c : A) → cmp a b ≡ lt → cmp b c ≡ lt → cmp a c ≡ lt

-- `first.then(second)`
abbrev pub then_by : Ordering → Ordering → Ordering
then_by eq second = second
then_by first _ = first

abbrev pub is_gt : Ordering → Bool
is_gt gt = true
is_gt _ = false

pub compare-IsLawful : IsLawful compare
compare-IsLawful = ground arith

-- Texts compare by their code points, which is the order of their UTF-8 bytes.
unfoldable pub compare_text : Text → Text → Ordering
compare_text [] [] = eq
compare_text [] (_ ∷ _) = lt
compare_text (_ ∷ _) [] = gt
compare_text (a ∷ s) (b ∷ t) = then_by (compare a b) (compare_text s t)

-- `None` stands before every `Some`.
unfoldable pub compare_option {ℓ} :
    {A : Type ℓ} → (A → A → Ordering) → Option A → Option A → Ordering
compare_option cmp none none = eq
compare_option cmp none (some _) = lt
compare_option cmp (some _) none = gt
compare_option cmp (some a) (some b) = cmp a b

compare_text_refl : (s : Text) → compare_text s s ≡ eq
unfolding compare_text
compare_text_refl [] = refl
compare_text_refl (a ∷ s) = ground (arith, compare_text_refl s)

compare_text-eq : (s t : Text) → compare_text s t ≡ eq → s ≡ t
unfolding compare_text
compare_text-eq [] [] h = refl
compare_text-eq [] (b ∷ t) h = cc
compare_text-eq (a ∷ s) [] h = cc
compare_text-eq (a ∷ s) (b ∷ t) h = ground (arith, compare_text-eq s t)

compare_text-lt : (s t : Text) → compare_text s t ≡ gt → compare_text t s ≡ lt
unfolding compare_text
compare_text-lt [] [] h = cc
compare_text-lt [] (b ∷ t) h = cc
compare_text-lt (a ∷ s) [] h = refl
compare_text-lt (a ∷ s) (b ∷ t) h = ground (arith, compare_text-lt s t)

compare_text-gt : (s t : Text) → compare_text s t ≡ lt → compare_text t s ≡ gt
unfolding compare_text
compare_text-gt [] [] h = cc
compare_text-gt [] (b ∷ t) h = refl
compare_text-gt (a ∷ s) [] h = cc
compare_text-gt (a ∷ s) (b ∷ t) h = ground (arith, compare_text-gt s t)

compare_text_trans :
    (s t u : Text) → compare_text s t ≡ lt → compare_text t u ≡ lt → compare_text s u ≡ lt
unfolding compare_text
compare_text_trans [] [] u h k = cc
compare_text_trans [] (b ∷ t) [] h k = cc
compare_text_trans [] (b ∷ t) (c ∷ u) h k = refl
compare_text_trans (a ∷ s) [] u h k = cc
compare_text_trans (a ∷ s) (b ∷ t) [] h k = cc
compare_text_trans (a ∷ s) (b ∷ t) (c ∷ u) h k = ground (arith, compare_text_trans s t u)

pub compare_text-IsLawful : IsLawful compare_text
compare_text-IsLawful = record {
  cmp_refl = compare_text_refl;
  eq_of_cmp = compare_text-eq;
  lt_of_gt = compare_text-lt;
  gt_of_lt = compare_text-gt;
  lt_trans = compare_text_trans;
}

-- A derived `Ord` compares a first key, then a second one.
module _ {ℓ κ μ} {A : Type ℓ} {K : Type κ} {L : Type μ} {f : K → K → Ordering}
    {g : L → L → Ordering} (a : IsLawful f) (b : IsLawful g) (key : A → K) (rest : A → L)
    (apart : (x y : A) → key x ≡ key y → rest x ≡ rest y → x ≡ y) where
  pub then_by-IsLawful : IsLawful (λ (x y : A). then_by (f (key x) (key y)) (g (rest x) (rest y)))
  then_by-IsLawful = record {
    cmp_refl = λ x. ground (arith, a.cmp_refl (key x), b.cmp_refl (rest x));
    eq_of_cmp = λ x y.
        ground (arith, a.eq_of_cmp (key x) (key y), b.eq_of_cmp (rest x) (rest y), apart x y);
    lt_of_gt = λ x y. ground (
      arith,
      a.eq_of_cmp (key x) (key y),
      a.cmp_refl (key x),
      a.lt_of_gt (key x) (key y),
      b.lt_of_gt (rest x) (rest y),
    );
    gt_of_lt = λ x y. ground (
      arith,
      a.eq_of_cmp (key x) (key y),
      a.cmp_refl (key x),
      a.gt_of_lt (key x) (key y),
      b.gt_of_lt (rest x) (rest y),
    );
    lt_trans = λ x y z. ground (
      arith,
      a.eq_of_cmp (key x) (key y),
      a.eq_of_cmp (key y) (key z),
      a.lt_trans (key x) (key y) (key z),
      b.lt_trans (rest x) (rest y) (rest z),
    );
  }

module _ {ℓ κ} {A : Type ℓ} {K : Type κ} {f : K → K → Ordering} (o : IsLawful f) (key : A → K)
    (key_inj : (x y : A) → key x ≡ key y → x ≡ y) where
  -- An order of keys that tell the elements apart.
  pub key-IsLawful : IsLawful (λ (x y : A). f (key x) (key y))
  key-IsLawful = record {
    cmp_refl = λ x. o.cmp_refl (key x);
    eq_of_cmp = λ x y h. key_inj x y (o.eq_of_cmp (key x) (key y) h);
    lt_of_gt = λ x y. o.lt_of_gt (key x) (key y);
    gt_of_lt = λ x y. o.gt_of_lt (key x) (key y);
    lt_trans = λ x y z. o.lt_trans (key x) (key y) (key z);
  }

module _ {κ μ} {K : Type κ} {L : Type μ} {f : K → K → Ordering} {g : L → L → Ordering} where
  pub pair-IsLawful :
      IsLawful f → IsLawful g → IsLawful (λ (x y : K × L). then_by (f x.0 y.0) (g x.1 y.1))
  pair-IsLawful a b =
      then_by-IsLawful {A = K × L} a b (λ x. x.0) (λ x. x.1) (λ x y p q. ground arith)

module _ {ℓ} {A : Type ℓ} {f : A → A → Ordering} (o : IsLawful f) where
  eq_of_some : (x y : Option A) → compare_option f x y ≡ eq → x ≡ y
  unfolding compare_option
  eq_of_some none none h = refl
  eq_of_some none (some b) h = cc
  eq_of_some (some a) none h = cc
  eq_of_some (some a) (some b) h = ap some (o.eq_of_cmp a b h)

  lt_of_some : (x y : Option A) → compare_option f x y ≡ gt → compare_option f y x ≡ lt
  unfolding compare_option
  lt_of_some none none h = cc
  lt_of_some none (some b) h = cc
  lt_of_some (some a) none h = refl
  lt_of_some (some a) (some b) h = o.lt_of_gt a b h

  gt_of_some : (x y : Option A) → compare_option f x y ≡ lt → compare_option f y x ≡ gt
  unfolding compare_option
  gt_of_some none none h = cc
  gt_of_some none (some b) h = refl
  gt_of_some (some a) none h = cc
  gt_of_some (some a) (some b) h = o.gt_of_lt a b h

  trans_of_some :
      (x y z : Option A)
      → compare_option f x y ≡ lt
      → compare_option f y z ≡ lt
      → compare_option f x z ≡ lt
  unfolding compare_option
  trans_of_some none none z h k = cc
  trans_of_some none (some b) none h k = cc
  trans_of_some none (some b) (some c) h k = refl
  trans_of_some (some a) none z h k = cc
  trans_of_some (some a) (some b) none h k = cc
  trans_of_some (some a) (some b) (some c) h k = o.lt_trans a b c h k

pub compare_option-IsLawful {ℓ} :
    {A : Type ℓ} {f : A → A → Ordering} → IsLawful f → IsLawful (compare_option f)
unfolding compare_option
compare_option-IsLawful o = record {
  cmp_refl = elim [ none ↦ refl | some a ↦ o.cmp_refl a ];
  eq_of_cmp = λ x y. eq_of_some o x y;
  lt_of_gt = λ x y. lt_of_some o x y;
  gt_of_lt = λ x y. gt_of_some o x y;
  lt_trans = λ x y z. trans_of_some o x y z;
}

pub reverse-IsLawful {ℓ} :
    {A : Type ℓ} {f : A → A → Ordering} → IsLawful f → IsLawful (λ (x y : A). f y x)
reverse-IsLawful o = record {
  cmp_refl = o.cmp_refl;
  eq_of_cmp = λ a b h. sym (o.eq_of_cmp b a h);
  lt_of_gt = λ a b. o.lt_of_gt b a;
  gt_of_lt = λ a b. o.gt_of_lt b a;
  lt_trans = λ a b c h k. o.lt_trans c b a k h;
}
