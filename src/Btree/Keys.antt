-- ===== src/Btree/Keys.antt =====
-- Strictly ascending lists of keys, which is how ordered maps and sets are iterated.
use core_shift_engine.Base.{◌≡◌, List, [], ◌∷◌, Ord, lt, Each, Each-imp}

module _ {A : Type 0} ⦃o : Ord A⦄ where
  -- `a` comes before every item.
  abbrev pub Below : A → List A → Type 0
  Below a xs = Each (λ x. o.cmp a x ≡ lt) xs

  abbrev pub IsAscending : List A → Type 0
  IsAscending [] = Unit
  IsAscending (x ∷ xs) = Below x xs × IsAscending xs

  pub Below-trans : (a b : A) (xs : List A) → o.cmp a b ≡ lt → Below b xs → Below a xs
  Below-trans a b xs h e = Each-imp _ _ (λ x k. o.lt_trans a b x h k) xs e
