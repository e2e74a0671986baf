-- ===== src/Foreground/Cache/Parse/Sorting.antt =====
-- The order of a listing.
use core_shift_engine.Base.{
  ◌≡◌, ◌≢◌, refl, List, [], ◌∷◌, Ordering, lt, eq, gt, arith, text_ord, Each, Each-imp,
}
use mathlib.Core.List.{Perm}
use mathlib.Core.List.Perm
use core_shift_engine.Foreground.Cache.{PackageUidEntry}
use core_shift_engine.Foreground.Cache.Parse.{entry_cmp, insert_entry, sort_entries}

-- `a` may stand before `b`.
abbrev pub Precedes : PackageUidEntry → PackageUidEntry → Type 0
Precedes a b = entry_cmp a b ≢ gt

abbrev pub IsSorted : List PackageUidEntry → Type 0
IsSorted [] = Unit
IsSorted (a ∷ rest) = Each (Precedes a) rest × IsSorted rest

entry_cmp-gt : (a b : PackageUidEntry) → entry_cmp a b ≡ gt → Precedes b a
unfolding entry_cmp
entry_cmp-gt a b h k = ground (
  arith,
  text_ord.lt_of_gt a.package_name b.package_name,
  text_ord.eq_of_cmp a.package_name b.package_name,
  text_ord.lt_of_gt b.package_name a.package_name,
)

insert_entry-Each :
    (P : PackageUidEntry → Type 0) (a : PackageUidEntry) (bs : List PackageUidEntry)
    → P a
    → Each P bs
    → Each P (insert_entry a bs)
unfolding insert_entry
insert_entry-Each P a [] p e = (p, tt)
insert_entry-Each P a (b ∷ bs) p e = ground (arith, insert_entry-Each P a bs p e.1)

pub sort_entries-Each :
    (P : PackageUidEntry → Type 0) (es : List PackageUidEntry)
    → Each P es
    → Each P (sort_entries es)
unfolding sort_entries
sort_entries-Each P [] e = tt
sort_entries-Each P (a ∷ es) e =
    insert_entry-Each P a (sort_entries es) e.0 (sort_entries-Each P es e.1)

Precedes-trans : (a b c : PackageUidEntry) → Precedes a b → Precedes b c → Precedes a c
unfolding entry_cmp
Precedes-trans a b c h k m = ground (
  arith,
  text_ord.cmp_refl a.package_name,
  text_ord.eq_of_cmp a.package_name b.package_name,
  text_ord.eq_of_cmp b.package_name c.package_name,
  text_ord.lt_trans a.package_name b.package_name c.package_name,
)

insert_entry-IsSorted :
    (a : PackageUidEntry) (bs : List PackageUidEntry) → IsSorted bs → IsSorted (insert_entry a bs)
unfolding insert_entry
insert_entry-IsSorted a [] s = (tt, tt)
insert_entry-IsSorted a (b ∷ bs) s = placed (entry_cmp a b) refl (insert_entry-IsSorted a bs s.1)
  where
    first : Precedes a b → IsSorted (a ∷ b ∷ bs)
    first p = ((p, Each-imp (Precedes b) (Precedes a) (λ c k. Precedes-trans a b c p k) bs s.0), s)

    placed :
        (o : Ordering)
        → entry_cmp a b ≡ o
        → IsSorted (insert_entry a bs)
        → IsSorted (elim o [ gt ↦ b ∷ insert_entry a bs | _ ↦ a ∷ b ∷ bs ])
    placed lt e later = first (λ g. cc)
    placed eq e later = first (λ g. cc)
    placed gt e later = (insert_entry-Each (Precedes b) a bs (entry_cmp-gt a b e) s.0, later)

-- The sort puts the entries in order.
pub sort_entries-IsSorted : (es : List PackageUidEntry) → IsSorted (sort_entries es)
unfolding sort_entries
sort_entries-IsSorted [] = tt
sort_entries-IsSorted (a ∷ es) =
    insert_entry-IsSorted a (sort_entries es) (sort_entries-IsSorted es)

-- `insert_entry` and the sort keep the entries, each as often as before.
insert_entry-perm :
    (a : PackageUidEntry) (bs : List PackageUidEntry) → Perm (insert_entry a bs) (a ∷ bs)
unfolding insert_entry
insert_entry-perm a [] = Perm.refl (a ∷ [])
insert_entry-perm a (b ∷ bs) =
    let moved : Perm (b ∷ insert_entry a bs) (a ∷ b ∷ bs) =
      Perm.trans (Perm.cons b (insert_entry-perm a bs)) (Perm.swap a b bs) in
    ground (arith, moved, Perm.refl (a ∷ b ∷ bs))

pub sort_entries-perm : (es : List PackageUidEntry) → Perm (sort_entries es) es
unfolding sort_entries
sort_entries-perm [] = Perm.refl []
sort_entries-perm (a ∷ es) =
    Perm.trans (insert_entry-perm a (sort_entries es)) (Perm.cons a (sort_entries-perm es))
