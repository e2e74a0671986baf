-- ===== src/Watch/Registrations.antt =====
-- `EngineWatch` of services/watch.rs: what is registered with inotify and the reactor, and how it
-- follows the source.
pub mod Shape
pub mod Removal
pub mod Entries
pub mod Sync
use core_shift_engine.Base.{
  ℕ, ℤ, negsuc, pos, Bool, true, false, not, ◌&&◌, List, [], ◌∷◌, ◌++◌, Option, none, some, Result,
  ok, err, Act, and_then, Ord, ◌==◌, nat_ord, int_ord, if◌then◌else◌, keep, is_some,
}
use core_shift_engine.Btree.Map.{BtreeMap, keys}
use core_shift_engine.Btree.Map
use core_shift_engine.Btree.Set.{BtreeSet}
use core_shift_engine.Btree.Set
use core_shift_engine.Text.Chars.{codes}
use core_shift_engine.Paths.{FilePath, path_ord, is_utf8}
use core_shift_engine.Host.{Host}
use core_shift_engine.Error.{EngineError, core, invalid_config}
use core_shift_engine.Invalidator.{IdentityCacheInvalidator, hint_paths}
use core_shift_engine.Foreground.Source.{ForegroundSource}
use core_shift_engine.Foreground.Manager.{ForegroundManager}

pub data WatchTarget : Type 0 where
  foreground identity_cache_hint : WatchTarget

pub record WatchRegistrationFailure (h : Host) : Type 0 where
  pub path : FilePath
  pub error : EngineError h

-- The reactor and its descriptor are part of the world, and the pipeline is the manager in it.
pub record EngineWatch (h : Host) (S : Type 0) : Type 0 where
  pub foreground : ForegroundManager S
  pub watches : BtreeMap ℤ (FilePath × WatchTarget)
  pub foreground_priority_tokens : BtreeMap h.Token FilePath
  pub foreground_priority_keys : BtreeMap FilePath ℕ
  pub socket_tokens : BtreeSet h.Token
  pub foreground_paths : BtreeSet FilePath
  pub foreground_priority_paths : BtreeSet FilePath
  pub identity_paths : BtreeSet FilePath
  pub registration_failures : List (WatchRegistrationFailure h)

abbrev pub is_same_target : WatchTarget → WatchTarget → Bool
is_same_target foreground foreground = true
is_same_target identity_cache_hint identity_cache_hint = true
is_same_target _ _ = false

module _ {h : Host} {S : Type 0} where
  abbrev pub paths_of : EngineWatch h S → WatchTarget → BtreeSet FilePath
  paths_of e foreground = e.foreground_paths
  paths_of e identity_cache_hint = e.identity_paths

  abbrev pub with_paths : EngineWatch h S → WatchTarget → BtreeSet FilePath → EngineWatch h S
  with_paths e foreground paths = record e { foreground_paths = paths }
  with_paths e identity_cache_hint paths = record e { identity_paths = paths }

  abbrev pub with_failure : EngineWatch h S → FilePath → EngineError h → EngineWatch h S
  with_failure e path error = record e {
    registration_failures = e.registration_failures ++ record { path = path; error = error } ∷ [];
  }

  -- The watch that `add_watch` gave, or its error.
  abbrev pub added :
      EngineWatch h S
      → FilePath
      → WatchTarget
      → Result ℤ h.CoreError × h.World
      → EngineWatch h S × h.World
  added e path target (err error, w) = (with_failure e path (core error), w)
  added e path target (ok wd, w) = (
    record (with_paths e target (Set.insert (paths_of e target) path)) {
      watches = Map.insert e.watches wd (path, target);
    },
    w,
  )

module _ {h : Host} {S : Type 0} (ops : ForegroundSource h S) where
  abbrev pub mask_of : EngineWatch h S → WatchTarget → FilePath → ℕ
  mask_of e foreground path = ops.watch_hint_mask e.foreground.source path
  mask_of e identity_cache_hint path = h.parent_watch_mask

  unfoldable pub add_watch_path :
      FilePath → WatchTarget → EngineWatch h S × h.World → EngineWatch h S × h.World
  add_watch_path path target (e, w) =
      if Set.contains (paths_of e target) path
      then (e, w)
      else if not (is_utf8 path)
      then (with_failure e path (invalid_config (codes "watch.path") (codes "must be UTF-8")), w)
      else added e path target (h.add_watch path (mask_of e target path) w)

  unfoldable pub add_watch_paths :
      List FilePath → WatchTarget → EngineWatch h S × h.World → EngineWatch h S × h.World
  unfolding add_watch_path
  add_watch_paths [] target t = t
  add_watch_paths (path ∷ paths) target t =
      add_watch_paths paths target (add_watch_path path target t)

abbrev pub is_watch : FilePath → WatchTarget → FilePath × WatchTarget → Bool
is_watch path target (watch_path, watch_target) =
    is_same_target watch_target target && watch_path == path

-- The descriptors that watch the path for the target.
abbrev pub wds_of : BtreeMap ℤ (FilePath × WatchTarget) → FilePath → WatchTarget → List ℤ
wds_of m path target = keys (keep (λ e. is_watch path target e.1) m)

-- `EINVAL` says that the watch is gone already.
abbrev pub is_gone : Option ℤ → Bool
is_gone none = false
is_gone (some code) = code == pos 22

module _ {h : Host} {S : Type 0} where
  abbrev pub removed :
      EngineWatch h S
      → FilePath
      → ℤ
      → Result (Unit {0}) h.CoreError × h.World
      → EngineWatch h S × h.World
  removed e path wd (ok u, w) = (record e { watches = Map.remove e.watches wd }, w)
  removed e path wd (err error, w) =
      let kept = if is_gone (h.raw_os_error error) then e else with_failure e path (core error) in
      (record kept { watches = Map.remove e.watches wd }, w)

  unfoldable pub remove_wds :
      List ℤ → FilePath → EngineWatch h S × h.World → EngineWatch h S × h.World
  remove_wds [] path t = t
  remove_wds (wd ∷ wds) path (e, w) = remove_wds wds path (removed e path wd (h.remove_watch wd w))

  unfoldable pub remove_watch_path :
      FilePath → WatchTarget → EngineWatch h S × h.World → EngineWatch h S × h.World
  unfolding remove_wds
  remove_watch_path path target (e, w) =
      let (e', w') = remove_wds (wds_of e.watches path target) path (e, w) in
      (with_paths e' target (Set.remove (paths_of e' target) path), w')

  unfoldable pub remove_watch_paths :
      List FilePath → WatchTarget → EngineWatch h S × h.World → EngineWatch h S × h.World
  unfolding remove_watch_path
  remove_watch_paths [] target t = t
  remove_watch_paths (path ∷ paths) target t =
      remove_watch_paths paths target (remove_watch_path path target t)

  unfoldable pub drop_priority_path : EngineWatch h S → FilePath → EngineWatch h S
  drop_priority_path e path = record e {
    foreground_priority_paths = Set.remove e.foreground_priority_paths path;
    foreground_priority_keys = Map.remove e.foreground_priority_keys path;
    foreground_priority_tokens = keep (λ entry. not (entry.1 == path)) e.foreground_priority_tokens;
  }

  unfoldable pub drop_priority_paths : EngineWatch h S → List FilePath → EngineWatch h S
  unfolding drop_priority_path
  drop_priority_paths e [] = e
  drop_priority_paths e (path ∷ paths) = drop_priority_paths (drop_priority_path e path) paths

-- The paths of the keys that are not current.
abbrev pub gone_paths : BtreeMap FilePath ℕ → BtreeMap FilePath ℕ → List FilePath
gone_paths previous current = keys (keep (λ e. not (is_some (Map.get current e.0))) previous)

abbrev pub is_key : ℕ → Option ℕ → Bool
is_key key none = false
is_key key (some k) = k == key

-- The paths whose key is not the current one.
abbrev pub stale_paths : BtreeMap FilePath ℕ → BtreeMap FilePath ℕ → List FilePath
stale_paths previous current = keys (keep (λ e. not (is_key e.1 (Map.get current e.0))) previous)

abbrev pub insert_key : BtreeMap FilePath ℕ → FilePath → Option ℕ → BtreeMap FilePath ℕ
insert_key m path none = m
insert_key m path (some key) = Map.insert m path key

module _ {h : Host} {S : Type 0} where
  unfoldable pub insert_registrations :
      BtreeMap FilePath ℕ → List (h.Token × FilePath) → EngineWatch h S → EngineWatch h S
  insert_registrations current [] e = e
  insert_registrations current ((token, path) ∷ rest) e =
      insert_registrations current rest (record e {
        foreground_priority_paths = Set.insert e.foreground_priority_paths path;
        foreground_priority_keys =
            insert_key e.foreground_priority_keys path (Map.get current path);
        foreground_priority_tokens =
            Map.insert ⦃o = h.token_ord⦄ e.foreground_priority_tokens token path;
      })

  abbrev pub registered :
      BtreeMap FilePath ℕ
      → EngineWatch h S
      → Result (List (h.Token × FilePath)) (EngineError h) × h.World
      → Result (Unit {0}) (EngineError h) × (EngineWatch h S × h.World)
  registered current e (ok registrations, w) =
      (ok tt, (insert_registrations current registrations e, w))
  registered current e (err error, w) = (err error, (e, w))

  -- After the call for a path that is gone.
  abbrev pub unregistered :
      EngineWatch h S
      → FilePath
      → Act (EngineError h) (EngineWatch h S × h.World) (Unit {0})
      → Result Bool (EngineError h) × h.World
      → Result (Unit {0}) (EngineError h) × (EngineWatch h S × h.World)
  unregistered e path rest (ok known, w) = rest (drop_priority_path e path, w)
  unregistered e path rest (err error, w) = (err error, (e, w))

module _ {h : Host} {S : Type 0} where
  abbrev pub fresh_watch : ForegroundManager S → EngineWatch h S
  fresh_watch manager = record {
    foreground = manager;
    watches = [];
    foreground_priority_tokens = [];
    foreground_priority_keys = [];
    socket_tokens = [];
    foreground_paths = [];
    foreground_priority_paths = [];
    identity_paths = [];
    registration_failures = [];
  }

  abbrev pub watch_or_error :
      Result (Unit {0}) (EngineError h) × (EngineWatch h S × h.World)
      → Result (EngineWatch h S) (EngineError h) × h.World
  watch_or_error (ok u, (e, w)) = (ok e, w)
  watch_or_error (err error, (e, w)) = (err error, w)

abbrev pub core_result :
    {h : Host} {A : Type 0} → Result A h.CoreError × h.World → Result A (EngineError h) × h.World
core_result (ok a, w) = (ok a, w)
core_result (err e, w) = (err (core e), w)

module _ {h : Host} {S : Type 0} (ops : ForegroundSource h S) where
  unfoldable pub sync_foreground_watch_paths : EngineWatch h S × h.World → EngineWatch h S × h.World
  unfolding add_watch_paths remove_watch_paths
  sync_foreground_watch_paths (e, w) =
      let desired = Set.insert_all [] (ops.watch_hint_paths e.foreground.source) in
      add_watch_paths ops desired foreground
        (remove_watch_paths (Set.difference e.foreground_paths desired) foreground (e, w))

  -- The registrations dropped of the paths that the source no longer hints at.
  unfoldable pub unregister_each :
      List FilePath → Act (EngineError h) (EngineWatch h S × h.World) (Unit {0})
  unregister_each [] t = (ok tt, t)
  unregister_each (path ∷ paths) (e, w) =
      unregistered e path (unregister_each paths)
        (ops.unregister_priority_fd e.foreground.source path w)

  abbrev pub register_current :
      BtreeMap FilePath ℕ
      → BtreeMap FilePath ℕ
      → Act (EngineError h) (EngineWatch h S × h.World) (Unit {0})
  register_current previous current (e, w) =
      let e' = drop_priority_paths e (stale_paths previous current) in
      registered current e'
        (ops.register_priority_fds e'.foreground.source e'.foreground_priority_paths w)

  unfoldable pub sync_foreground_priority_fds :
      Act (EngineError h) (EngineWatch h S × h.World) (Unit {0})
  unfolding unregister_each insert_registrations drop_priority_paths
  sync_foreground_priority_fds (e, w) =
      let current = Map.insert_all [] (ops.priority_hint_keys e.foreground.source) in
      let previous = e.foreground_priority_keys in
      and_then (unregister_each (gone_paths previous current) (e, w))
        λ (u : Unit {0}). register_current previous current

  -- `EngineWatch::new`: the hints of the invalidator are watched for the identity cache.
  unfoldable pub new_watch :
      ForegroundManager S → IdentityCacheInvalidator → Act (EngineError h) h.World (EngineWatch h S)
  unfolding add_watch_paths sync_foreground_priority_fds
  new_watch manager invalidator w = and_then (core_result (h.reactor_new w)) λ (u : Unit {0}) w₁.
      and_then (core_result (h.setup_inotify w₁)) λ (v : Unit {0}) w₂.
        let t =
          add_watch_paths ops (ops.watch_hint_paths manager.source) foreground
            (fresh_watch manager, w₂) in
        watch_or_error (
          sync_foreground_priority_fds
            (add_watch_paths ops (hint_paths invalidator) identity_cache_hint t))
