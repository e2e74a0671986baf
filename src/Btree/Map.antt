-- ===== src/Btree/Map.antt =====
-- `BTreeMap`: an association list with strictly ascending keys.
use core_shift_engine.Base.{
  suc, length, ◌≡◌, refl, ap, inl, inr, Bool, List, [], ◌∷◌, map, Option, none, some, Ord, lt, eq,
  gt, ◌==◌, ==_iff, arith, if◌then◌else◌, is_some, Among, Each, false,
}
use core_shift_engine.Btree.Set
use core_shift_engine.Btree.Keys.{Below, IsAscending, Below-trans}

abbrev pub BtreeMap : Type 0 → Type 0 → Type 0
BtreeMap K V = List (K × V)

abbrev pub keys : {K V : Type 0} → BtreeMap K V → List K
keys = map (λ e. e.0)

abbrev pub values : {K V : Type 0} → BtreeMap K V → List V
values = map (λ e. e.1)

module _ {K V : Type 0} ⦃o : Ord K⦄ where
  unfoldable pub get : BtreeMap K V → K → Option V
  get [] k = none
  get ((j, v) ∷ m) k = if j == k then some v else get m k

  abbrev pub contains_key : BtreeMap K V → K → Bool
  contains_key m k = is_some (get m k)

  unfoldable pub insert : BtreeMap K V → K → V → BtreeMap K V
  insert [] k v = (k, v) ∷ []
  insert ((j, w) ∷ m) k v = elim (o.cmp k j) [
    | lt ↦ (k, v) ∷ (j, w) ∷ m
    | eq ↦ (k, v) ∷ m
    | gt ↦ (j, w) ∷ insert m k v
  ]

  unfoldable pub remove : BtreeMap K V → K → BtreeMap K V
  remove [] k = []
  remove ((j, w) ∷ m) k = if j == k then remove m k else (j, w) ∷ remove m k

  -- `collect` into a map: the last value of a key counts.
  unfoldable pub insert_all : BtreeMap K V → List (K × V) → BtreeMap K V
  insert_all m [] = m
  insert_all m ((k, v) ∷ es) = insert_all (insert m k v) es

  -- What holds of the entries holds after an insertion of one of which it holds, and after a removal,
  -- where the key is another one.
  pub insert-Each :
      (P : K × V → Type 0) (m : BtreeMap K V) (k : K) (v : V)
      → P (k, v)
      → Each P m
      → Each P (insert m k v)
  unfolding insert
  insert-Each P [] k v p e = (p, tt)
  insert-Each P ((j, w) ∷ m) k v p e = ground (arith, insert-Each P m k v p e.1)

  pub remove-Each :
      (P : K × V → Type 0) (m : BtreeMap K V) (k : K)
      → Each P m
      → Each (λ e. P e × ((e.0 == k) ≡ false)) (remove m k)
  unfolding remove
  remove-Each P [] k e = tt
  remove-Each P ((j, w) ∷ m) k e = ground (arith, remove-Each P m k e.1)

  -- A lookup after an insertion.
  pub get-insert :
      (m : BtreeMap K V) (k : K) (v : V) (j : K)
      → get (insert m k v) j ≡ (if k == j then some v else get m j)
  unfolding get insert
  get-insert [] k v j = refl
  get-insert ((i, w) ∷ m) k v j =
      ground (arith, o.eq_of_cmp k i, get-insert m k v j, ==_iff k j, ==_iff i j, o.cmp_refl k)

  -- The keys after an insertion.
  pub keys-insert : (m : BtreeMap K V) (k : K) (v : V) → keys (insert m k v) ≡ Set.insert (keys m) k
  unfolding insert Set.insert
  keys-insert [] k v = refl
  keys-insert ((j, w) ∷ m) k v = ground (arith, keys-insert m k v, o.eq_of_cmp k j)

  pub length-keys : (m : BtreeMap K V) → length (keys m) ≡ length m
  length-keys [] = refl
  length-keys (e ∷ m) = ap suc (length-keys m)

  -- A lookup after a removal.
  pub get-remove :
      (m : BtreeMap K V) (k j : K) → get (remove m k) j ≡ (if k == j then none else get m j)
  unfolding get remove
  get-remove [] k j = ground (arith)
  get-remove ((i, w) ∷ m) k j = ground (arith, get-remove m k j, ==_iff i k, ==_iff k j, ==_iff i j)

  Below-insert :
      (a : K) (m : BtreeMap K V) (k : K) (v : V)
      → o.cmp a k ≡ lt
      → Below a (keys m)
      → Below a (keys (insert m k v))
  unfolding insert
  Below-insert a [] k v h e = (h, tt)
  Below-insert a ((j, w) ∷ m) k v h e = ground (arith, Below-insert a m k v h)

  -- The keys stay sorted and distinct.
  pub insert-IsAscending :
      (m : BtreeMap K V) (k : K) (v : V) → IsAscending (keys m) → IsAscending (keys (insert m k v))
  unfolding insert
  insert-IsAscending [] k v h = (tt, tt)
  insert-IsAscending ((j, w) ∷ m) k v h = ground (
    arith,
    insert-IsAscending m k v,
    Below-trans k j (keys m),
    Below-insert j m k v,
    o.lt_of_gt k j,
    o.eq_of_cmp k j,
  )

  Below-remove : (a : K) (m : BtreeMap K V) (k : K) → Below a (keys m) → Below a (keys (remove m k))
  unfolding remove
  Below-remove a [] k e = tt
  Below-remove a ((j, w) ∷ m) k e = ground (arith, Below-remove a m k)

  pub remove-IsAscending :
      (m : BtreeMap K V) (k : K) → IsAscending (keys m) → IsAscending (keys (remove m k))
  unfolding remove
  remove-IsAscending [] k h = tt
  remove-IsAscending ((j, w) ∷ m) k h = ground (arith, remove-IsAscending m k, Below-remove j m k)

  pub get-Below : (m : BtreeMap K V) (k : K) → Below k (keys m) → get m k ≡ none
  unfolding get
  get-Below [] k e = refl
  get-Below ((j, w) ∷ m) k e = ground (arith, get-Below m k, ==_iff j k, o.cmp_refl k)

  -- In a sorted map an entry is what the lookup of its key finds.
  pub get-Among :
      (m : BtreeMap K V) (k : K) (v : V) → IsAscending (keys m) → Among (k, v) m → get m k ≡ some v
  unfolding get
  get-Among [] k v h a = absurd a
  get-Among ((j, w) ∷ m) k v h (inl e) =
      ground (arith, ==_iff j k, ap (λ (p : K × V). p.0) e, ap (λ (p : K × V). p.1) e)
  get-Among ((j, w) ∷ m) k v h (inr a) =
      ground (arith, get-Among m k v h.1 a, ==_iff j k, get-Below m j h.0)

  pub Among-get : (m : BtreeMap K V) (k : K) (v : V) → get m k ≡ some v → Among (k, v) m
  unfolding get
  Among-get [] k v h = cc
  Among-get ((j, w) ∷ m) k v h = ground (arith, Among-get m k v, ==_iff j k)
