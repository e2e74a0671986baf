-- ===== src/Foreground/Resolver.antt =====
-- services/foreground/resolver.rs: reports on the candidates tried, and the cache rebuilt when the
-- package marker changes. The bytes of a payload are decoded and reported on in Resolver/Reports; the
-- reads of a payload file are not modelled, and the stat of the marker is an action of the world.
pub mod Rebuilds
pub mod Reports
pub mod Fallback
pub mod Verdict
mod Examples
use core_shift_engine.Base.{
  ℕ, suc, ◌+◌, ◌%◌, ◌^◌, ℤ, Bool, true, false, ◌&&◌, not, List, [], ◌∷◌, ◌++◌, Option, none, some,
  Result, ok, err, Act, leb, ◌==◌, nat_ord, int_ord, text_ord, if◌then◌else◌, length, is_some, map,
}
use core_shift_engine.Btree.Set.{BtreeSet, contains}
use core_shift_engine.Text.Chars.{Text, codes}
use core_shift_engine.Text.Split.{lines, trim}
use core_shift_engine.Text.Decimal.{show}
use core_shift_engine.Text.Signed.{parse_i32, show_int}
use core_shift_engine.Paths.{FilePath}
use core_shift_engine.Host.{Host, IoError, IoErrorKind, permission_denied, not_found, Metadata}
use core_shift_engine.Error.{EngineError, io, message}
use core_shift_engine.Foreground.Cache.{
  UidPackageCache, UidPackageState, exact, missing, ambiguous, uid_state, Provider, update_from,
  entry_count,
}

abbrev pub words : List Text → Text
words [] = []
words (w ∷ ws) = w ++ words ws

-- `V1PayloadCache`: the last payload.
pub record V1PayloadCache : Type 0 where
  pub last : Option (List ℕ)

abbrev is_last : Option (List ℕ) → List ℕ → Bool
is_last none payload = false
is_last (some last) payload = last == payload

unfoldable pub observe_payload : V1PayloadCache → List ℕ → Option (List ℕ) × V1PayloadCache
observe_payload c payload =
    if is_last c.last payload then (none, c) else (some payload, record { last = some payload })

pub record AppUidFilter : Type 0 where
  pub modulus : ℕ
  pub min_app_id : ℕ

unfoldable pub accepts_app : AppUidFilter → ℕ → Bool
accepts_app f uid = not (f.modulus == 0) && leb f.min_app_id (uid % f.modulus)

pub record PackageFileStat : Type 0 where
  pub mtime_sec : ℤ
  pub mtime_nsec : ℤ
  pub size : ℕ

pub record ForegroundResolverState : Type 0 where
  pub cache : UidPackageCache
  pub blocked_packages : BtreeSet Text
  pub accessibility_uids : BtreeSet ℕ
  pub app_uid_filter : AppUidFilter
  pub cache_rebuilds : ℕ
  pub foreground_changes : ℕ
  pub marker_fingerprint : Option PackageFileStat

unfoldable pub same_stat : PackageFileStat → PackageFileStat → Bool
same_stat a b = a.mtime_sec == b.mtime_sec && a.mtime_nsec == b.mtime_nsec && a.size == b.size

-- A marker that was never seen has not changed.
abbrev pub marker_changed : Option PackageFileStat → PackageFileStat → Bool
marker_changed none current = false
marker_changed (some previous) current = not (same_stat previous current)

-- `+= 1` on `u64`.
abbrev pub bump : ℕ → ℕ
bump n = (n + 1) % 2 ^ 64

abbrev is_space : ℕ → Bool
is_space c = c == b' '

abbrev underscored : Text → Text
underscored = map (λ c. if is_space c then b'_' else c)

abbrev io_reason : IoErrorKind → Text → Text
io_reason permission_denied m = codes "permission_denied"
io_reason not_found m = codes "not_found"
io_reason _ m = underscored m

abbrev format_io_error_reason : {h : Host} → EngineError h → Text
format_io_error_reason (io e) = io_reason e.kind e.message
format_io_error_reason e = underscored (message e)

-- What `foreground_changed` changes: the state and the world.
abbrev pub Noted : Host → Type 0
Noted h = Result (Option Text) (EngineError h) × (ForegroundResolverState × h.World)

-- The cache rebuilt because the marker is now `current`.
abbrev pub rebuilt :
    {h : Host}
    → ForegroundResolverState
    → PackageFileStat
    → Result (Unit {0}) (EngineError h) × UidPackageCache × h.World
    → Noted h
rebuilt s current (err e, cache, w) = (err e, (record s { cache = cache }, w))
rebuilt s current (ok u, cache, w) = (
  ok (
      some (
        words (
          codes "cache stat_check change_count="
          ∷ show s.foreground_changes
          ∷ codes " changed=true action=rebuild entries="
          ∷ show (entry_count cache)
          ∷ []))),
  (
    record s {
      cache = cache;
      cache_rebuilds = bump s.cache_rebuilds;
      marker_fingerprint = some current;
    },
    w,
  ),
)

-- The cache left alone, and the marker remembered.
abbrev pub kept : {h : Host} → ForegroundResolverState → PackageFileStat → h.World → Noted h
kept s current w = (
  ok (
      some (
        words (
          codes "cache stat_check change_count="
          ∷ show s.foreground_changes
          ∷ codes " changed=false action=keep"
          ∷ []))),
  (record s { marker_fingerprint = some current }, w),
)

abbrev pub stat_checked :
    {h : Host}
    → ForegroundResolverState
    → Provider (EngineError h) h.World
    → Result PackageFileStat (EngineError h) × h.World
    → Noted h
stat_checked {h} s provider (err e, w) = (
  ok (
      some (
        words (
          codes "cache stat_check error="
          ∷ format_io_error_reason {h = h} e
          ∷ codes " action=keep"
          ∷ []))),
  (s, w),
)
stat_checked {h} s provider (ok current, w) =
    if marker_changed s.marker_fingerprint current
    then rebuilt s current (update_from s.cache provider w)
    else kept {h = h} s current w

-- `foreground_changed`, with the stat of the marker as an action on the world.
unfoldable pub foreground_changed :
    {h : Host}
    → Provider (EngineError h) h.World
    → Act (EngineError h) h.World PackageFileStat
    → ℕ
    → ForegroundResolverState × h.World
    → Noted h
foreground_changed {h} provider stat interval (s, w) =
    let counted : ForegroundResolverState = record s {
      foreground_changes = bump s.foreground_changes;
    } in
    if interval == 0
    then (ok none, (counted, w))
    else if not (counted.foreground_changes % interval == 0)
    then (ok none, (counted, w))
    else stat_checked {h = h} counted provider (stat w)
