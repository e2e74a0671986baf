-- ===== src/Base/Orders.antt =====
-- Types with a total order, as the keys of the source's ordered maps and sets are.
use Prim.Native.Nat.{ℕ, compare, Ordering}
use Prim.Native.Nat.Ordering.{lt, eq, gt}
use mathlib.Core.Path.{◌≡◌, refl}
use mathlib.Core.Logic.{◌↔◌}
use mathlib.Core.Bool.{Bool, true, false}
use mathlib.Core.List.{List, [], ◌∷◌}
use native.Mathlib.Omega.{arith}

-- The laws that Rust asks of `Ord::cmp`.
pub record IsTotal {ℓ} {A : Type ℓ} (cmp : A → A → Ordering) : Type ℓ where
  pub cmp_refl : (a : A) → cmp a a ≡ eq
  pub eq_of_cmp : (a b : A) → cmp a b ≡ eq → a ≡ b
  pub lt_of_gt : (a b : A) → cmp a b ≡ gt → cmp b a ≡ lt
  pub lt_trans : (a b c : A) → cmp a b ≡ lt → cmp b c ≡ lt → cmp a c ≡ lt

pub record Ord {ℓ} (A : Type ℓ) : Type ℓ where
  pub cmp : A → A → Ordering
  pub total : IsTotal cmp
  pub open total use *

abbrev pub is_eq : Ordering → Bool
is_eq eq = true
is_eq _ = false

infix 50 ◌==◌
abbrev pub ◌==◌ {ℓ} : {A : Type ℓ} ⦃o : Ord A⦄ → A → A → Bool
◌==◌ ⦃o⦄ a b = is_eq (o.cmp a b)

pub ==_iff {ℓ} : {A : Type ℓ} ⦃o : Ord A⦄ (a b : A) → ((a == b) ≡ true) ↔ (a ≡ b)
==_iff ⦃o⦄ a b = (λ h. o.eq_of_cmp a b (ground arith), λ h. rw (h, o.cmp_refl b))

pub ==_refl {ℓ} : {A : Type ℓ} ⦃o : Ord A⦄ (a : A) → (a == a) ≡ true
==_refl ⦃o⦄ a = rw (o.cmp_refl a)

pub compare-IsTotal : IsTotal compare
compare-IsTotal = ground arith

instance abbrev pub nat_ord : Ord ℕ
nat_ord = record { cmp = compare; total = compare-IsTotal }

module _ {ℓ} {A : Type ℓ} ⦃o : Ord A⦄ where
  -- Slices compare item by item; a proper prefix comes first.
  unfoldable pub list_cmp : List A → List A → Ordering
  list_cmp [] [] = eq
  list_cmp [] (y ∷ ys) = lt
  list_cmp (x ∷ xs) [] = gt
  list_cmp (x ∷ xs) (y ∷ ys) = elim (o.cmp x y) [ lt ↦ lt | eq ↦ list_cmp xs ys | gt ↦ gt ]

  list_cmp_refl : (xs : List A) → list_cmp xs xs ≡ eq
  unfolding list_cmp
  list_cmp_refl [] = refl
  list_cmp_refl (x ∷ xs) = ground (arith, o.cmp_refl x, list_cmp_refl xs)

  list_eq_of_cmp : (xs ys : List A) → list_cmp xs ys ≡ eq → xs ≡ ys
  unfolding list_cmp
  list_eq_of_cmp [] [] h = refl
  list_eq_of_cmp [] (y ∷ ys) h = cc
  list_eq_of_cmp (x ∷ xs) [] h = cc
  list_eq_of_cmp (x ∷ xs) (y ∷ ys) h = ground (arith, o.eq_of_cmp x y, list_eq_of_cmp xs ys)

  list_lt_of_gt : (xs ys : List A) → list_cmp xs ys ≡ gt → list_cmp ys xs ≡ lt
  unfolding list_cmp
  list_lt_of_gt [] [] h = cc
  list_lt_of_gt [] (y ∷ ys) h = cc
  list_lt_of_gt (x ∷ xs) [] h = refl
  list_lt_of_gt (x ∷ xs) (y ∷ ys) h =
      ground (arith, o.eq_of_cmp x y, o.cmp_refl x, o.lt_of_gt x y, list_lt_of_gt xs ys)

  list_lt_trans :
      (xs ys zs : List A) → list_cmp xs ys ≡ lt → list_cmp ys zs ≡ lt → list_cmp xs zs ≡ lt
  unfolding list_cmp
  list_lt_trans [] [] zs h k = cc
  list_lt_trans [] (y ∷ ys) [] h k = cc
  list_lt_trans [] (y ∷ ys) (z ∷ zs) h k = refl
  list_lt_trans (x ∷ xs) [] zs h k = cc
  list_lt_trans (x ∷ xs) (y ∷ ys) [] h k = cc
  list_lt_trans (x ∷ xs) (y ∷ ys) (z ∷ zs) h k =
      ground (arith, o.eq_of_cmp x y, o.eq_of_cmp y z, o.lt_trans x y z, list_lt_trans xs ys zs)

  pub list_cmp-IsTotal : IsTotal list_cmp
  list_cmp-IsTotal = record {
    cmp_refl = list_cmp_refl;
    eq_of_cmp = list_eq_of_cmp;
    lt_of_gt = list_lt_of_gt;
    lt_trans = list_lt_trans;
  }

-- The order of text: Rust's order by bytes is the order by code points.
instance unfoldable pub text_ord : Ord (List ℕ)
unfolding list_cmp
text_ord = record { cmp = list_cmp; total = list_cmp-IsTotal }
