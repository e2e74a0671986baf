-- ===== src/Base/Lists.antt =====
-- Lists measured by native numbers, with Boolean filters and searches.
use Prim.Native.Nat.{ℕ, zero, suc, ◌+◌, ◌-◌}
use mathlib.Core.Path.{◌≡◌, refl, ap}
use mathlib.Core.Logic.{◌⊎◌, inl, inr}
use mathlib.Core.Bool.{Bool, true, false, ◌||◌, ◌&&◌}
use mathlib.Core.List.{List, [], ◌∷◌, ◌++◌}
use native.Mathlib.Omega.{arith}
use core_shift_engine.Base.Tests.{if◌then◌else◌}

module _ {ℓ} {A : Type ℓ} where
  abbrev pub length : List A → ℕ
  length [] = 0
  length (x ∷ xs) = suc (length xs)

  pub length-append : (xs ys : List A) → length (xs ++ ys) ≡ length xs + length ys
  length-append [] ys = omega arith
  length-append (x ∷ xs) ys = omega (arith, length-append xs ys)

  abbrev pub take : ℕ → List A → List A
  take zero xs = []
  take (suc n) [] = []
  take (suc n) (x ∷ xs) = x ∷ take n xs

  abbrev pub drop : ℕ → List A → List A
  drop zero xs = xs
  drop (suc n) [] = []
  drop (suc n) (x ∷ xs) = drop n xs

  pub length-drop : (n : ℕ) (xs : List A) → length (drop n xs) ≡ length xs - n
  length-drop zero xs = omega arith
  length-drop (suc n) [] = omega arith
  length-drop (suc n) (x ∷ xs) = omega (arith, length-drop n xs)

  pub take-append-drop : (n : ℕ) (xs : List A) → take n xs ++ drop n xs ≡ xs
  take-append-drop zero xs = refl
  take-append-drop (suc n) [] = refl
  take-append-drop (suc n) (x ∷ xs) = ap (◌∷◌ x) (take-append-drop n xs)

  abbrev pub is_empty : List A → Bool
  is_empty [] = true
  is_empty (x ∷ xs) = false

  abbrev pub keep : (A → Bool) → List A → List A
  keep p [] = []
  keep p (x ∷ xs) = if p x then x ∷ keep p xs else keep p xs

  abbrev pub any : (A → Bool) → List A → Bool
  any p [] = false
  any p (x ∷ xs) = p x || any p xs

  abbrev pub all : (A → Bool) → List A → Bool
  all p [] = true
  all p (x ∷ xs) = p x && all p xs

  -- `P` holds of each item.
  abbrev pub Each {κ} : (A → Type κ) → List A → Type κ
  Each P [] = Unit
  Each P (x ∷ xs) = P x × Each P xs

  pub Each-imp {κ μ} :
      (P : A → Type κ) (Q : A → Type μ)
      → ((x : A) → P x → Q x)
      → (xs : List A) → Each P xs
      → Each Q xs
  Each-imp P Q f [] e = tt
  Each-imp P Q f (x ∷ xs) e = (f x e.0, Each-imp P Q f xs e.1)

module _ {A : Type 0} where
  -- `x` stands in the list.
  abbrev pub Among : A → List A → Type 0
  Among x [] = ⊥
  Among x (y ∷ ys) = (x ≡ y) ⊎ Among x ys

  pub Each-apply {κ} : (P : A → Type κ) (x : A) (xs : List A) → Each P xs → Among x xs → P x
  Each-apply P x [] e m = absurd m
  Each-apply P x (y ∷ ys) e (inl p) = ground (arith)
  Each-apply P x (y ∷ ys) e (inr m) = Each-apply P x ys e.1 m

  pub Each-of {κ} : (P : A → Type κ) (xs : List A) → ((x : A) → Among x xs → P x) → Each P xs
  Each-of P [] f = tt
  Each-of P (x ∷ xs) f = (f x (inl refl), Each-of P xs (λ y m. f y (inr m)))

-- What holds of the items, and follows with the test, holds of those that pass the test.
pub keep-Each {ℓ} :
    {A : Type ℓ} (P Q : A → Type 0) (p : A → Bool) (xs : List A)
    → ((x : A) → P x → p x ≡ true → Q x)
    → Each P xs
    → Each Q (keep p xs)
keep-Each P Q p [] f e = tt
keep-Each P Q p (x ∷ xs) f e = ground (arith, f x e.0, keep-Each P Q p xs f e.1)
