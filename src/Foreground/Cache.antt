-- ===== src/Foreground/Cache.antt =====
-- services/foreground/cache.rs: the cache from uids to packages and back, rebuilt from a snapshot.
pub mod Rebuild
pub mod States
pub mod Parse
pub mod Provider
pub mod Examples
use core_shift_engine.Base.{
  ℕ, suc, ◌<◌, Bool, true, false, List, [], ◌∷◌, Option, none, some, Result, ok, err, Act, and_then,
  ltb, nat_ord, text_ord, length, option_map,
}
use core_shift_engine.Btree.Map.{BtreeMap}
use core_shift_engine.Btree.Map
use core_shift_engine.Btree.Set.{BtreeSet}
use core_shift_engine.Btree.Set
use core_shift_engine.Text.Chars.{Text}
use core_shift_engine.Paths.{FilePath}

pub data PackageProviderSource : Type 0 where
  cmd_package_list : PackageProviderSource

pub record PackageUidEntry : Type 0 where
  pub package_name : Text
  pub uid : ℕ
  pub base_apk_path : Option FilePath

pub record PackageUidSnapshot : Type 0 where
  pub entries : List PackageUidEntry
  pub source : PackageProviderSource
  pub coherent : Bool

pub record UidPackageCache : Type 0 where
  pub uid_to_packages : BtreeMap ℕ (List Text)
  pub package_to_uid : BtreeMap Text ℕ
  pub package_to_base_apk_path : BtreeMap Text FilePath
  pub source : Option PackageProviderSource
  pub coherent : Bool

pub data UidPackageState : Type 0 where
  exact : Text → UidPackageState
  missing : UidPackageState
  ambiguous : List Text → UidPackageState

-- `UidPackageCache::default()`
abbrev pub empty_cache : UidPackageCache
empty_cache = record {
  uid_to_packages = [];
  package_to_uid = [];
  package_to_base_apk_path = [];
  source = none;
  coherent = false;
}

abbrev or_default : Option (BtreeSet Text) → BtreeSet Text
or_default none = []
or_default (some s) = s

abbrev insert_path : BtreeMap Text FilePath → Text → Option FilePath → BtreeMap Text FilePath
insert_path m package_name none = m
insert_path m package_name (some path) = Map.insert m package_name path

-- `uid_packages.entry(uid).or_default().insert(package)`
insert_package : BtreeMap ℕ (BtreeSet Text) → PackageUidEntry → BtreeMap ℕ (BtreeSet Text)
insert_package m e = Map.insert m e.uid (Set.insert (or_default (Map.get m e.uid)) e.package_name)

-- The two insertions into the cache itself.
record_entry : UidPackageCache → PackageUidEntry → UidPackageCache
record_entry c e = record c {
  package_to_uid = Map.insert c.package_to_uid e.package_name e.uid;
  package_to_base_apk_path = insert_path c.package_to_base_apk_path e.package_name e.base_apk_path;
}

-- The loop over the entries of the snapshot, with its local map.
fill :
    UidPackageCache
    → BtreeMap ℕ (BtreeSet Text)
    → List PackageUidEntry
    → UidPackageCache × BtreeMap ℕ (BtreeSet Text)
fill c uid_packages [] = (c, uid_packages)
fill c uid_packages (e ∷ es) = fill (record_entry c e) (insert_package uid_packages e) es

-- The loop that moves the local map over, each set as a vector.
insert_each : BtreeMap ℕ (List Text) → BtreeMap ℕ (BtreeSet Text) → BtreeMap ℕ (List Text)
insert_each m [] = m
insert_each m ((uid, packages) ∷ rest) = insert_each (Map.insert m uid packages) rest

-- The maps cleared, and the snapshot's marks taken over.
abbrev cleared : UidPackageCache → PackageUidSnapshot → UidPackageCache
cleared c snapshot = record c {
  uid_to_packages = [];
  package_to_uid = [];
  package_to_base_apk_path = [];
  source = some snapshot.source;
  coherent = snapshot.coherent;
}

-- `update_from_snapshot`, which cannot fail.
pub update_from_snapshot : UidPackageCache → PackageUidSnapshot → UidPackageCache
unfolding fill insert_each insert_package record_entry
update_from_snapshot c snapshot =
    let (filled, uid_packages) = fill (cleared c snapshot) [] snapshot.entries in
    record filled { uid_to_packages = insert_each filled.uid_to_packages uid_packages }

-- `PackageUidProvider::load`, in the world `W` with errors `E`.
abbrev pub Provider : Type 0 → Type 0 → Type 0
Provider E W = Act E W PackageUidSnapshot

abbrev pub updated :
    {E W : Type 0}
    → UidPackageCache
    → Result PackageUidSnapshot E × W
    → Result (Unit {0}) E × UidPackageCache × W
updated c (ok snapshot, w) = (ok tt, update_from_snapshot c snapshot, w)
updated c (err e, w) = (err e, c, w)

-- `update_from`: a provider that fails leaves the cache alone.
abbrev pub update_from :
    {E W : Type 0} → UidPackageCache → Provider E W → W → Result (Unit {0}) E × UidPackageCache × W
update_from c load w = updated c (load w)

unfoldable pub packages_for_uid : UidPackageCache → ℕ → Option (List Text)
packages_for_uid c uid = Map.get c.uid_to_packages uid

abbrev only : Option (List Text) → Option Text
only (some (package_name ∷ [])) = some package_name
only _ = none

pub exact_package_for_uid : UidPackageCache → ℕ → Option Text
unfolding packages_for_uid
exact_package_for_uid c uid = only (packages_for_uid c uid)

pub entry_count : UidPackageCache → ℕ
entry_count c = length c.package_to_uid

pub uid_for_package : UidPackageCache → Text → Option ℕ
uid_for_package c package_name = Map.get c.package_to_uid package_name

pub base_apk_path_for_package : UidPackageCache → Text → Option FilePath
base_apk_path_for_package c package_name = Map.get c.package_to_base_apk_path package_name

abbrev state_of : Option (List Text) → UidPackageState
state_of (some (package_name ∷ [])) = exact package_name
state_of (some (p ∷ q ∷ packages)) = ambiguous (p ∷ q ∷ packages)
state_of (some []) = missing
state_of none = missing

unfoldable pub uid_state : UidPackageCache → ℕ → UidPackageState
unfolding packages_for_uid
uid_state c uid = state_of (packages_for_uid c uid)
