-- ===== src/Invalidator.antt =====
-- services/identity_cache.rs: when the package file is looked at again, and whether it changed.
pub mod Interval
mod Examples
use core_shift_engine.Base.{
  ℕ, ◌%◌, Bool, true, false, ◌&&◌, not, Option, none, some, ℤ, Result, ok, err, Act, ◌==◌, nat_ord,
  int_ord, if◌then◌else◌, List, [],
}
use core_shift_engine.Paths.{FilePath}
use core_shift_engine.Host.{Host, IoError, Metadata}
use core_shift_engine.Error.{EngineError, io}
use core_shift_engine.Config.{IdentityCacheInvalidationConfig, enabled}
use core_shift_engine.State.{saturating_add}

pub record IdentityCacheFingerprint : Type 0 where
  pub dev : ℕ
  pub inode : ℕ
  pub size : ℕ
  pub mtime_sec : ℤ
  pub mtime_nsec : ℤ

pub record IdentityCacheDirtyState : Type 0 where
  pub packages_xml_changed : Bool

pub record IdentityCacheInvalidator : Type 0 where
  pub config : IdentityCacheInvalidationConfig
  pub foreground_count : ℕ
  pub packages_xml_fingerprint : Option IdentityCacheFingerprint
  pub dirty : IdentityCacheDirtyState

abbrev fingerprint_of : Metadata → IdentityCacheFingerprint
fingerprint_of m = record {
  dev = m.dev;
  inode = m.inode;
  size = m.size;
  mtime_sec = m.mtime_sec;
  mtime_nsec = m.mtime_nsec;
}

abbrev stat :
    {h : Host}
    → Result Metadata IoError × h.World
    → Result IdentityCacheFingerprint (EngineError h) × h.World
stat (ok m, w) = (ok (fingerprint_of m), w)
stat (err e, w) = (err (io e), w)

-- `IdentityCacheFingerprint::from_path`
unfoldable pub from_path :
    {h : Host} → FilePath → Act (EngineError h) h.World IdentityCacheFingerprint
from_path {h} path w = stat (h.metadata path w)

unfoldable pub same_fingerprint : IdentityCacheFingerprint → IdentityCacheFingerprint → Bool
same_fingerprint a b =
    a.dev == b.dev
    && a.inode == b.inode
    && a.size == b.size
    && a.mtime_sec == b.mtime_sec
    && a.mtime_nsec == b.mtime_nsec

abbrev clean : IdentityCacheDirtyState
clean = record { packages_xml_changed = false }

abbrev ok_of {ℓ κ} : {A : Type ℓ} {E : Type κ} → Result A E → Option A
ok_of (ok a) = some a
ok_of (err e) = none

abbrev fresh :
    IdentityCacheInvalidationConfig → Option IdentityCacheFingerprint → IdentityCacheInvalidator
fresh config fingerprint = record {
  config = config;
  foreground_count = 0;
  packages_xml_fingerprint = fingerprint;
  dirty = clean;
}

-- `new` takes a first fingerprint if there is a path, and goes without one if that fails.
unfoldable pub new_invalidator :
    (h : Host) → IdentityCacheInvalidationConfig → h.World → IdentityCacheInvalidator × h.World
new_invalidator h config w =
    if not (enabled config)
    then (fresh config none, w)
    else (let (fingerprint, w') = from_path {h = h} config.packages_xml_path w in
        (fresh config (ok_of fingerprint), w'))

abbrev differs : Option IdentityCacheFingerprint → IdentityCacheFingerprint → Bool
differs none next = true
differs (some current) next = not (same_fingerprint current next)

abbrev observe : IdentityCacheInvalidator → IdentityCacheFingerprint → IdentityCacheInvalidator
observe i next = record i {
  packages_xml_fingerprint = some next;
  dirty =
      if differs i.packages_xml_fingerprint next
      then record i.dirty { packages_xml_changed = true }
      else i.dirty;
}

abbrev checked :
    {h : Host}
    → IdentityCacheInvalidator
    → Result IdentityCacheFingerprint (EngineError h) × h.World
    → Result Bool (EngineError h) × IdentityCacheInvalidator × h.World
checked i (ok next, w) = (ok (differs i.packages_xml_fingerprint next), observe i next, w)
checked i (err e, w) = (err e, i, w)

-- `check_packages_xml`: a file that cannot be read changes nothing.
unfoldable pub check_packages_xml :
    {h : Host}
    → IdentityCacheInvalidator
    → h.World
    → Result Bool (EngineError h) × IdentityCacheInvalidator × h.World
check_packages_xml i w = checked i (from_path i.config.packages_xml_path w)

abbrev is_due : IdentityCacheInvalidator → Bool
is_due i =
    not (i.config.foreground_check_interval == 0)
    && i.foreground_count % i.config.foreground_check_interval == 0

-- `mark_foreground_candidate`: each interval-th candidate checks the file.
unfoldable pub mark_foreground_candidate :
    (h : Host) → IdentityCacheInvalidator → h.World → IdentityCacheInvalidator × h.World
mark_foreground_candidate h i w =
    if not (enabled i.config)
    then (i, w)
    else (let counted : IdentityCacheInvalidator = record i {
      foreground_count = saturating_add i.foreground_count 1;
    } in
        if is_due counted
        then (let (_, i', w') = check_packages_xml {h = h} counted w in (i', w'))
        else (counted, w))

unfoldable pub should_refresh_now : IdentityCacheInvalidator → Bool
should_refresh_now i = i.dirty.packages_xml_changed

-- `consume_dirty` takes the marks and leaves none.
unfoldable pub consume_dirty :
    IdentityCacheInvalidator → IdentityCacheDirtyState × IdentityCacheInvalidator
consume_dirty i = (i.dirty, record i { dirty = clean })

-- `watch_hint_paths`: no path of the cache is watched in this design, and `mark_event` does nothing.
unfoldable pub hint_paths : IdentityCacheInvalidator → List FilePath
hint_paths i = []

unfoldable pub mark_event : FilePath → IdentityCacheInvalidator → IdentityCacheInvalidator
mark_event path i = i
