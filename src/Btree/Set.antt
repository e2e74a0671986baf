-- ===== src/Btree/Set.antt =====
-- `BTreeSet`: a strictly ascending list.
use core_shift_engine.Base.{
  ◌≡◌, refl, Bool, true, false, not, keep, ◌||◌, ◌&&◌, List, [], ◌∷◌, Ord, lt, eq, gt, ◌==◌, ==_iff,
  arith, Among,
}
use core_shift_engine.Btree.Keys.{Below, IsAscending, Below-trans}

abbrev pub BtreeSet : Type 0 → Type 0
BtreeSet A = List A

module _ {A : Type 0} ⦃o : Ord A⦄ where
  unfoldable pub contains : BtreeSet A → A → Bool
  contains [] a = false
  contains (x ∷ xs) a = x == a || contains xs a

  unfoldable pub insert : BtreeSet A → A → BtreeSet A
  insert [] a = a ∷ []
  insert (x ∷ xs) a = elim (o.cmp a x) [ lt ↦ a ∷ x ∷ xs | eq ↦ x ∷ xs | gt ↦ x ∷ insert xs a ]

  -- `collect` into a set.
  unfoldable pub insert_all : BtreeSet A → List A → BtreeSet A
  insert_all s [] = s
  insert_all s (x ∷ xs) = insert_all (insert s x) xs

  -- `contains` after an insertion.
  pub contains-insert :
      (s : BtreeSet A) (a b : A) → contains (insert s a) b ≡ (a == b || contains s b)
  unfolding contains insert
  contains-insert [] a b = refl
  contains-insert (x ∷ xs) a b =
      ground (arith, o.eq_of_cmp a x, contains-insert xs a b, ==_iff a b, ==_iff x b, o.cmp_refl x)

  pub contains-insert_all :
      (s : BtreeSet A) (xs : List A) (b : A)
      → contains (insert_all s xs) b ≡ (contains s b || contains xs b)
  unfolding insert_all contains
  contains-insert_all s [] b = ground arith
  contains-insert_all s (x ∷ xs) b =
      ground (arith, contains-insert_all (insert s x) xs b, contains-insert s x b)

  abbrev pub remove : BtreeSet A → A → BtreeSet A
  remove s a = keep (λ x. not (x == a)) s

  -- The items that are not in the second set.
  abbrev pub difference : BtreeSet A → BtreeSet A → BtreeSet A
  difference s t = keep (λ x. not (contains t x)) s

  pub contains-keep :
      (p : A → Bool) (xs : List A) (x : A) → contains (keep p xs) x ≡ (contains xs x && p x)
  unfolding contains
  contains-keep p [] x = refl
  contains-keep p (y ∷ xs) x = ground (arith, contains-keep p xs x, ==_iff y x)

  Below-insert : (a b : A) (s : BtreeSet A) → o.cmp a b ≡ lt → Below a s → Below a (insert s b)
  unfolding insert
  Below-insert a b [] h e = (h, tt)
  Below-insert a b (x ∷ xs) h e = ground (arith, Below-insert a b xs h)

  pub insert-IsAscending : (s : BtreeSet A) (a : A) → IsAscending s → IsAscending (insert s a)
  unfolding insert
  insert-IsAscending [] a h = (tt, tt)
  insert-IsAscending (x ∷ xs) a h =
      ground
        (arith, insert-IsAscending xs a, Below-trans a x xs, Below-insert x a xs, o.lt_of_gt a x)

  pub insert_all-IsAscending :
      (s : BtreeSet A) (xs : List A) → IsAscending s → IsAscending (insert_all s xs)
  unfolding insert_all
  insert_all-IsAscending s [] h = h
  insert_all-IsAscending s (x ∷ xs) h =
      insert_all-IsAscending (insert s x) xs (insert-IsAscending s x h)

  pub contains→Among : (s : BtreeSet A) (a : A) → contains s a ≡ true → Among a s
  unfolding contains
  contains→Among [] a h = cc
  contains→Among (x ∷ xs) a h = ground (arith, contains→Among xs a, ==_iff x a)

  pub Among→contains : (s : BtreeSet A) (a : A) → Among a s → contains s a ≡ true
  unfolding contains
  Among→contains [] a m = absurd m
  Among→contains (x ∷ xs) a m = ground (arith, Among→contains xs a, ==_iff x a)
