-- ===== src/Runtime.antt =====
-- runtime.rs: the runtime that owns the identity cache.
pub mod Lifecycle
pub mod Refresh
pub mod Step
mod Examples
use core_shift_engine.Base.{
  ℕ, Bool, true, false, List, [], ◌∷◌, ◌++◌, Option, none, some, Result, ok, err, length,
  if◌then◌else◌, is_some,
}
use core_shift_engine.Text.Chars.{Text}
use core_shift_engine.Host.{Host}
use core_shift_engine.Error.{EngineError, already_started, message}
use core_shift_engine.Config.{
  EngineConfig, IdentityCacheProviderMode, disabled, cmd_package_list, validate,
}
use core_shift_engine.Events.{EngineEvent, identity_cache_warmed, identity_cache_warmup_failed}
use core_shift_engine.State.{EngineState}
use core_shift_engine.Services.{SystemServices, new_services, with_uid_package_cache}
use core_shift_engine.Watch.{Emission, emit}
use core_shift_engine.Invalidator.{
  IdentityCacheInvalidator, IdentityCacheDirtyState, new_invalidator, consume_dirty, mark_event,
  mark_foreground_candidate,
}
use core_shift_engine.Paths.{FilePath}
use core_shift_engine.Foreground.Cache.{
  PackageProviderSource, PackageUidSnapshot, UidPackageCache, empty_cache, update_from_snapshot,
}
use core_shift_engine.Foreground.Cache.Provider.{CmdPackageListProvider, new_provider, load}

pub record IdentityCacheWarmupState : Type 0 where
  pub source : Option PackageProviderSource
  pub coherent : Bool
  pub count : ℕ
  pub last_cache_error : Option Text

abbrev pub default_warmup_state : IdentityCacheWarmupState
default_warmup_state = record {
  source = none;
  coherent = false;
  count = 0;
  last_cache_error = none;
}

pub record EngineRuntime (h : Host) : Type 0 where
  pub config : EngineConfig h
  pub started : Bool
  pub identity_cache : UidPackageCache
  pub identity_cache_state : IdentityCacheWarmupState
  pub identity_cache_invalidator : IdentityCacheInvalidator

-- `EngineRuntime::new`
unfoldable pub new_runtime : {h : Host} → EngineConfig h → h.World → EngineRuntime h × h.World
new_runtime {h} config w =
    let (i, w') = new_invalidator h config.identity_cache_invalidation w in
    (
      record {
        config = config;
        started = false;
        identity_cache = empty_cache;
        identity_cache_state = default_warmup_state;
        identity_cache_invalidator = i;
      },
      w',
    )

abbrev pub Loaded : Host → Type 0
Loaded h = Result (UidPackageCache × IdentityCacheWarmupState) (EngineError h)

abbrev pub warmed : PackageUidSnapshot → UidPackageCache × IdentityCacheWarmupState
warmed snapshot = (
  update_from_snapshot empty_cache snapshot,
  record {
    source = some snapshot.source;
    coherent = snapshot.coherent;
    count = length snapshot.entries;
    last_cache_error = none;
  },
)

abbrev loaded :
    {h : Host} → Result PackageUidSnapshot (EngineError h) × h.World → Loaded h × h.World
loaded (ok snapshot, w) = (ok (warmed snapshot), w)
loaded (err e, w) = (err e, w)

-- The provider that the configuration asks for.
abbrev pub provider_of : {h : Host} → EngineConfig h → CmdPackageListProvider h
provider_of c = new_provider c.exec c.identity_cache.cmd_path c.identity_cache.user_id

-- `load_identity_cache`
unfoldable pub load_identity_cache : {h : Host} → EngineConfig h → h.World → Loaded h × h.World
load_identity_cache c w = elim c.identity_cache.provider_mode [
  | disabled ↦ (ok (empty_cache, default_warmup_state), w)
  | cmd_package_list ↦ loaded (load (provider_of c) w)
]

-- The runtime with what was loaded; a failure drops the old cache and keeps the dirty mark.
abbrev pub settled : {h : Host} → EngineRuntime h → Loaded h → EngineRuntime h
settled r (ok (cache, state)) = record r {
  identity_cache = cache;
  identity_cache_state = state;
  identity_cache_invalidator = (consume_dirty r.identity_cache_invalidator).1;
}
settled r (err e) = record r {
  identity_cache = empty_cache;
  identity_cache_state = record {
    source = none;
    coherent = false;
    count = 0;
    last_cache_error = some (message e);
  };
}

unfoldable pub refresh_identity_cache :
    {h : Host} → EngineRuntime h → h.World → EngineRuntime h × h.World
refresh_identity_cache r w = let (l, w') = load_identity_cache r.config w in (settled r l, w')

abbrev validated :
    {h : Host}
    → EngineRuntime h
    → h.World
    → Result (Unit {0}) (EngineError h)
    → Result (Unit {0}) (EngineError h) × (EngineRuntime h × h.World)
validated r w (err e) = (err e, (r, w))
validated r w (ok u) =
    let (r', w') = refresh_identity_cache r w in (ok tt, (record r' { started = true }, w'))

unfoldable pub start :
    {h : Host}
    → EngineRuntime h × h.World
    → Result (Unit {0}) (EngineError h) × (EngineRuntime h × h.World)
start (r, w) =
    if r.started then (err already_started, (r, w)) else validated r w (validate r.config)

unfoldable pub shutdown : {h : Host} → EngineRuntime h → EngineRuntime h
shutdown r = record r { started = false }

unfoldable pub system_services : {h : Host} → EngineRuntime h → SystemServices h
system_services r =
    if is_some r.identity_cache_state.source
    then with_uid_package_cache (new_services r.config.exec) r.identity_cache
    else new_services r.config.exec

abbrev pub cache_event : {h : Host} → IdentityCacheWarmupState → Option (EngineEvent h)
cache_event s = elim s.source [
  | some source ↦ some (identity_cache_warmed source s.coherent s.count)
  | none ↦ elim s.last_cache_error [
    | some error ↦ some (identity_cache_warmup_failed error)
    | none ↦ none
  ]
]

-- `apply_identity_cache_state`
unfoldable pub apply_identity_cache_state : {h : Host} → EngineRuntime h → Emission h → Emission h
apply_identity_cache_state {h} r t = elim (cache_event {h = h} r.identity_cache_state) [
  | none ↦ t
  | some event ↦ emit event t
]

-- The methods that pass a call on to the invalidator.
unfoldable pub mark_identity_cache_foreground_candidate :
    {h : Host} → EngineRuntime h → h.World → EngineRuntime h × h.World
mark_identity_cache_foreground_candidate {h} r w =
    let (i, w') = mark_foreground_candidate h r.identity_cache_invalidator w in
    (record r { identity_cache_invalidator = i }, w')

unfoldable pub mark_identity_cache_event : {h : Host} → FilePath → EngineRuntime h → EngineRuntime h
mark_identity_cache_event path r = record r {
  identity_cache_invalidator = mark_event path r.identity_cache_invalidator;
}

unfoldable pub consume_identity_cache_dirty :
    {h : Host} → EngineRuntime h → IdentityCacheDirtyState × EngineRuntime h
consume_identity_cache_dirty r =
    let (marks, i) = consume_dirty r.identity_cache_invalidator in
    (marks, record r { identity_cache_invalidator = i })
