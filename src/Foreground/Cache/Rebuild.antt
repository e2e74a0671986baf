-- ===== src/Foreground/Cache/Rebuild.antt =====
-- What a rebuilt cache answers, said in terms of the entries of the snapshot.
use core_shift_engine.Base.{
  ℕ, ◌≡◌, refl, sym, ap, ◌∙◌, List, [], ◌∷◌, map, Option, none, some, arith, ◌==◌, nat_ord,
  text_ord, if◌then◌else◌, length, inl, inr, Bool-cases,
}
use core_shift_engine.Btree.Keys.{IsAscending}
use core_shift_engine.Btree.Map.{BtreeMap, keys, keys-insert, length-keys}
use core_shift_engine.Btree.Map
use core_shift_engine.Btree.Set.{BtreeSet}
use core_shift_engine.Btree.Set
use core_shift_engine.Text.Chars.{Text}
use core_shift_engine.Paths.{FilePath}
use core_shift_engine.Foreground.Cache.{
  PackageUidEntry, PackageUidSnapshot, UidPackageCache, or_default, insert_package, record_entry,
  cleared, fill, insert_each, update_from_snapshot, packages_for_uid, uid_for_package, insert_path,
  base_apk_path_for_package, entry_count,
}

-- The packages that the entries give to a uid.
abbrev pub packages_of : ℕ → List PackageUidEntry → List Text
packages_of uid [] = []
packages_of uid (e ∷ es) =
    if e.uid == uid then e.package_name ∷ packages_of uid es else packages_of uid es

-- The uid of the last entry of a package.
abbrev pub last_uid : Text → List PackageUidEntry → Option ℕ
last_uid p [] = none
last_uid p (e ∷ es) = elim (last_uid p es) [
  | some uid ↦ some uid
  | none ↦ if e.package_name == p then some e.uid else none
]

-- A set with more packages put in, where there is no set before the first.
abbrev absorb : Option (BtreeSet Text) → List Text → Option (BtreeSet Text)
absorb o [] = o
absorb o (p ∷ ps) = some (Set.insert_all (or_default o) (p ∷ ps))

absorb-push :
    (o : Option (BtreeSet Text)) (p : Text) (ps : List Text)
    → absorb (some (Set.insert (or_default o) p)) ps ≡ absorb o (p ∷ ps)
unfolding Set.insert_all
absorb-push o p [] = refl
absorb-push o p (q ∷ ps) = refl

get-insert_package :
    (m : BtreeMap ℕ (BtreeSet Text)) (e : PackageUidEntry) (uid : ℕ)
    → Map.get (insert_package m e) uid ≡ (
        if e.uid == uid
        then some (Set.insert (or_default (Map.get m uid)) e.package_name)
        else Map.get m uid)
unfolding insert_package
get-insert_package m e uid =
    ground
      (arith, Map.get-insert m e.uid (Set.insert (or_default (Map.get m e.uid)) e.package_name) uid)

get-fill :
    (c : UidPackageCache) (m : BtreeMap ℕ (BtreeSet Text)) (es : List PackageUidEntry) (uid : ℕ)
    → Map.get (fill c m es).1 uid ≡ absorb (Map.get m uid) (packages_of uid es)
unfolding fill
get-fill c m [] uid = refl
get-fill c m (e ∷ es) uid =
    let rest = get-fill (record_entry c e) (insert_package m e) es uid in
    elim (Bool-cases (e.uid == uid)) [
      | inl hit ↦
          rest
          ∙ rw (get-insert_package m e uid, hit)
              (absorb-push (Map.get m uid) e.package_name (packages_of uid es))
      | inr miss ↦ rest ∙ rw (get-insert_package m e uid, miss)
    ]

fill-IsAscending :
    (c : UidPackageCache) (m : BtreeMap ℕ (BtreeSet Text)) (es : List PackageUidEntry)
    → IsAscending (keys m)
    → IsAscending (keys (fill c m es).1)
unfolding fill insert_package
fill-IsAscending c m [] h = h
fill-IsAscending c m (e ∷ es) h =
    fill-IsAscending (record_entry c e) (insert_package m e) es (Map.insert-IsAscending m e.uid _ h)

abbrev or_else {ℓ} : {A : Type ℓ} → Option A → Option A → Option A
or_else (some a) o = some a
or_else none o = o

get-insert_each :
    (m : BtreeMap ℕ (List Text)) (u : BtreeMap ℕ (BtreeSet Text)) (uid : ℕ)
    → IsAscending (keys u)
    → Map.get (insert_each m u) uid ≡ or_else (Map.get u uid) (Map.get m uid)
unfolding insert_each Map.get
get-insert_each m [] uid h = refl
get-insert_each m ((k, s) ∷ u) uid h = ground (
  arith,
  get-insert_each (Map.insert m k s) u uid h.1,
  Map.get-insert m k s uid,
  Map.get-Below u k h.0,
)

fill-uid_to_packages :
    (c : UidPackageCache) (m : BtreeMap ℕ (BtreeSet Text)) (es : List PackageUidEntry)
    → (fill c m es).0.uid_to_packages ≡ c.uid_to_packages
unfolding fill record_entry
fill-uid_to_packages c m [] = refl
fill-uid_to_packages c m (e ∷ es) = fill-uid_to_packages (record_entry c e) (insert_package m e) es

-- The packages of a uid as a rebuilt cache has them: none for a uid with no entry, and otherwise
-- the set of its packages.
abbrev pub expected : List Text → Option (List Text)
expected ps = absorb none ps

-- After an update the cache answers a uid with the sorted set of the packages that the snapshot's
-- entries give it, and with nothing if they give it none, whatever was cached before.
pub packages_for_uid-update_from_snapshot :
    (c : UidPackageCache) (s : PackageUidSnapshot) (uid : ℕ)
    → packages_for_uid (update_from_snapshot c s) uid ≡ expected (packages_of uid s.entries)
unfolding packages_for_uid update_from_snapshot Map.get
packages_for_uid-update_from_snapshot c s uid =
    let built = fill (cleared c s) [] s.entries in
    get-insert_each built.0.uid_to_packages built.1 uid
      (fill-IsAscending (cleared c s) [] s.entries tt)
    ∙ ground (
      arith,
      get-fill (cleared c s) [] s.entries uid,
      fill-uid_to_packages (cleared c s) [] s.entries,
    )

fill-package_to_uid :
    (c : UidPackageCache) (m : BtreeMap ℕ (BtreeSet Text)) (es : List PackageUidEntry) (p : Text)
    → Map.get (fill c m es).0.package_to_uid p
      ≡ or_else (last_uid p es) (Map.get c.package_to_uid p)
unfolding fill record_entry
fill-package_to_uid c m [] p = refl
fill-package_to_uid c m (e ∷ es) p =
    fill-package_to_uid (record_entry c e) (insert_package m e) es p
    ∙ ground (arith, Map.get-insert c.package_to_uid e.package_name e.uid p)

-- After an update a package has the uid of its last entry.
pub uid_for_package-update_from_snapshot :
    (c : UidPackageCache) (s : PackageUidSnapshot) (p : Text)
    → uid_for_package (update_from_snapshot c s) p ≡ last_uid p s.entries
unfolding uid_for_package update_from_snapshot Map.get
uid_for_package-update_from_snapshot c s p =
    ground (arith, fill-package_to_uid (cleared c s) [] s.entries p)

-- The path of the last entry of a package that has one.
abbrev pub last_path : Text → List PackageUidEntry → Option FilePath
last_path p [] = none
last_path p (e ∷ es) = elim (last_path p es) [
  | some path ↦ some path
  | none ↦ if e.package_name == p then e.base_apk_path else none
]

get-insert_path :
    (m : BtreeMap Text FilePath) (q : Text) (o : Option FilePath) (p : Text)
    → Map.get (insert_path m q o) p ≡ or_else (if q == p then o else none) (Map.get m p)
get-insert_path m q none p = ground arith
get-insert_path m q (some path) p = ground (arith, Map.get-insert m q path p)

fill-package_to_base_apk_path :
    (c : UidPackageCache) (m : BtreeMap ℕ (BtreeSet Text)) (es : List PackageUidEntry) (p : Text)
    → Map.get (fill c m es).0.package_to_base_apk_path p
      ≡ or_else (last_path p es) (Map.get c.package_to_base_apk_path p)
unfolding fill record_entry
fill-package_to_base_apk_path c m [] p = refl
fill-package_to_base_apk_path c m (e ∷ es) p =
    fill-package_to_base_apk_path (record_entry c e) (insert_package m e) es p
    ∙ ground (arith, get-insert_path c.package_to_base_apk_path e.package_name e.base_apk_path p)

-- After an update a package has the path of the last of its entries that has one, also when a later
-- entry of the package has none.
pub base_apk_path_for_package-update_from_snapshot :
    (c : UidPackageCache) (s : PackageUidSnapshot) (p : Text)
    → base_apk_path_for_package (update_from_snapshot c s) p ≡ last_path p s.entries
unfolding base_apk_path_for_package update_from_snapshot Map.get
base_apk_path_for_package-update_from_snapshot c s p =
    ground (arith, fill-package_to_base_apk_path (cleared c s) [] s.entries p)

-- The packages that the entries name, in order.
abbrev pub names_of : List PackageUidEntry → List Text
names_of = map (λ e. e.package_name)

keys-fill :
    (c : UidPackageCache) (m : BtreeMap ℕ (BtreeSet Text)) (es : List PackageUidEntry)
    → keys (fill c m es).0.package_to_uid ≡ Set.insert_all (keys c.package_to_uid) (names_of es)
unfolding fill record_entry Set.insert_all
keys-fill c m [] = refl
keys-fill c m (e ∷ es) =
    keys-fill (record_entry c e) (insert_package m e) es
    ∙ rw (keys-insert c.package_to_uid e.package_name e.uid) refl

-- After an update the count of entries is that of the different packages of the snapshot, however
-- often its entries repeat one.
pub entry_count-update_from_snapshot :
    (c : UidPackageCache) (s : PackageUidSnapshot)
    → entry_count (update_from_snapshot c s) ≡ length (Set.insert_all [] (names_of s.entries))
unfolding entry_count update_from_snapshot
entry_count-update_from_snapshot c s =
    sym (length-keys (fill (cleared c s) [] s.entries).0.package_to_uid)
    ∙ ap length (keys-fill (cleared c s) [] s.entries)

fill-marks :
    (c : UidPackageCache) (m : BtreeMap ℕ (BtreeSet Text)) (es : List PackageUidEntry)
    → ((fill c m es).0.source ≡ c.source) × ((fill c m es).0.coherent ≡ c.coherent)
unfolding fill record_entry
fill-marks c m [] = (refl, refl)
fill-marks c m (e ∷ es) = fill-marks (record_entry c e) (insert_package m e) es

-- An update takes the snapshot's marks over.
pub update_from_snapshot_marks :
    (c : UidPackageCache) (s : PackageUidSnapshot)
    → ((update_from_snapshot c s).source ≡ some s.source)
      × ((update_from_snapshot c s).coherent ≡ s.coherent)
unfolding update_from_snapshot
update_from_snapshot_marks c s = fill-marks (cleared c s) [] s.entries
