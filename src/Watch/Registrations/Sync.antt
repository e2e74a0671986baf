-- ===== src/Watch/Registrations/Sync.antt =====
-- Following the source: the watches and the priority registrations that it hints at.
use core_shift_engine.Base.{
  ℕ, refl, not, List, [], ◌∷◌, Result, ok, err, and_then, Act, int_ord, nat_ord, if_both,
}
use core_shift_engine.Btree.Map.{BtreeMap, keys, insert-Each, remove-Each}
use core_shift_engine.Btree.Map
use core_shift_engine.Btree.Set.{BtreeSet, contains, contains-insert, contains-keep}
use core_shift_engine.Btree.Set
use core_shift_engine.Paths.{FilePath, path_ord, is_utf8}
use core_shift_engine.Host.{Host}
use core_shift_engine.Error.{EngineError}
use core_shift_engine.Invalidator.{IdentityCacheInvalidator, hint_paths}
use core_shift_engine.Foreground.Source.{ForegroundSource}
use core_shift_engine.Foreground.Manager.{ForegroundManager}
use core_shift_engine.Watch.Registrations.{
  EngineWatch, foreground, add_watch_path, add_watch_paths, remove_watch_paths, drop_priority_paths,
  sync_foreground_watch_paths, unregister_each, register_current, sync_foreground_priority_fds,
  gone_paths, stale_paths, mask_of, fresh_watch, new_watch, watch_or_error, core_result,
}
use core_shift_engine.Watch.Registrations.Shape.{
  IsWatch, added-IsWatch, drop_priority_paths-IsWatch,
}
use core_shift_engine.Watch.Registrations.Removal.{remove_watch_paths-IsWatch}
use core_shift_engine.Watch.Registrations.Entries.{registered-IsWatch, unregistered-IsWatch}

-- A watch that was made is well formed.
abbrev pub Made : {h : Host} {S : Type 0} → Result (EngineWatch h S) (EngineError h) → Type 0
Made (ok e) = IsWatch [] e
Made (err x) = Unit

module _ {h : Host} {S : Type 0} (ops : ForegroundSource h S) where
  add_watch_path-IsWatch :
      {s : BtreeSet h.Token} (path : FilePath) (t : EngineWatch h S × h.World)
      → IsWatch s t.0
      → IsWatch s (add_watch_path ops path foreground t).0
  unfolding add_watch_path
  add_watch_path-IsWatch {s} path (e, w) i =
      if_both (λ (t : EngineWatch h S × h.World). IsWatch s t.0) (contains e.foreground_paths path)
        i
        (if_both (λ (t : EngineWatch h S × h.World). IsWatch s t.0) (not (is_utf8 path))
          (record {
            watched = i.watched;
            tokened = i.tokened;
            keyed = i.keyed;
            sockets = i.sockets;
          })
          (added-IsWatch e path (h.add_watch path (mask_of ops e foreground path) w) i))

  add_watch_paths-IsWatch :
      {s : BtreeSet h.Token} (paths : List FilePath) (t : EngineWatch h S × h.World)
      → IsWatch s t.0
      → IsWatch s (add_watch_paths ops paths foreground t).0
  unfolding add_watch_paths
  add_watch_paths-IsWatch [] t i = i
  add_watch_paths-IsWatch (path ∷ paths) t i =
      add_watch_paths-IsWatch paths (add_watch_path ops path foreground t)
        (add_watch_path-IsWatch path t i)

  pub sync_foreground_watch_paths-IsWatch :
      {s : BtreeSet h.Token} (t : EngineWatch h S × h.World)
      → IsWatch s t.0
      → IsWatch s (sync_foreground_watch_paths ops t).0
  unfolding sync_foreground_watch_paths
  sync_foreground_watch_paths-IsWatch (e, w) i =
      let desired = Set.insert_all [] (ops.watch_hint_paths e.foreground.source) in
      let gone = Set.difference e.foreground_paths desired in
      add_watch_paths-IsWatch desired (remove_watch_paths gone foreground (e, w))
        (remove_watch_paths-IsWatch gone (e, w) i)

  unregister_each-IsWatch :
      {s : BtreeSet h.Token} (paths : List FilePath) (t : EngineWatch h S × h.World)
      → IsWatch s t.0
      → IsWatch s (unregister_each ops paths t).1.0
  unfolding unregister_each
  unregister_each-IsWatch [] t i = i
  unregister_each-IsWatch (path ∷ paths) (e, w) i =
      unregistered-IsWatch e path (unregister_each ops paths)
        (ops.unregister_priority_fd e.foreground.source path w) (unregister_each-IsWatch paths) i

  pub sync_foreground_priority_fds-IsWatch :
      {s : BtreeSet h.Token} (t : EngineWatch h S × h.World)
      → IsWatch s t.0
      → IsWatch s (sync_foreground_priority_fds ops t).1.0
  unfolding sync_foreground_priority_fds
  sync_foreground_priority_fds-IsWatch {s} (e, w) i =
      let current = Map.insert_all [] (ops.priority_hint_keys e.foreground.source) in
      let previous = e.foreground_priority_keys in
      let gone = gone_paths previous current in
      after s previous current (unregister_each ops gone (e, w))
        (unregister_each-IsWatch gone (e, w) i)
    where
      after :
          (s : BtreeSet h.Token) (previous current : BtreeMap FilePath ℕ)
          (r : Result (Unit {0}) (EngineError h) × (EngineWatch h S × h.World))
          → IsWatch s r.1.0
          → IsWatch s (and_then r (λ (u : Unit {0}). register_current ops previous current)).1.0
      after s previous current (ok u, (f, w)) j =
          let dropped = drop_priority_paths f (stale_paths previous current) in
          registered-IsWatch current dropped
            (ops.register_priority_fds dropped.foreground.source dropped.foreground_priority_paths
              w)
            (drop_priority_paths-IsWatch f (stale_paths previous current) j)
      after s previous current (err x, (f, w)) j = j

  watch_or_error-Made :
      (r : Result (Unit {0}) (EngineError h) × (EngineWatch h S × h.World))
      → IsWatch [] r.1.0
      → Made (watch_or_error r).0
  watch_or_error-Made (ok u, (e, w)) i = i
  watch_or_error-Made (err x, (e, w)) i = tt

  and_then-Made :
      (r : Result (Unit {0}) (EngineError h) × h.World)
      (rest : Unit {0} → Act (EngineError h) h.World (EngineWatch h S))
      → ((u : Unit {0}) (w : h.World) → Made (rest u w).0)
      → Made (and_then r rest).0
  and_then-Made (ok u, w) rest k = k u w
  and_then-Made (err x, w) rest k = tt

  fresh_watch-IsWatch : (m : ForegroundManager S) → IsWatch [] (fresh_watch {h = h} m)
  fresh_watch-IsWatch m = record { watched = tt; sockets = refl; tokened = tt; keyed = tt }

  -- Whatever the source hints at and whichever registrations fail, a watch that `new` returns has
  -- only watches for the foreground, at paths it records, only priority registrations at paths it
  -- records, and no sockets.
  pub new_watch-Made :
      (m : ForegroundManager S) (i : IdentityCacheInvalidator) (w : h.World)
      → Made (new_watch ops m i w).0
  unfolding new_watch hint_paths add_watch_paths
  new_watch-Made m i w = and_then-Made (core_result (h.reactor_new w)) _ λ u w₁.
      and_then-Made (core_result (h.setup_inotify w₁)) _ λ v w₂.
        let hints = ops.watch_hint_paths m.source in
        let t = add_watch_paths ops hints foreground (fresh_watch m, w₂) in
        watch_or_error-Made (sync_foreground_priority_fds ops t) (
          sync_foreground_priority_fds-IsWatch t
            (add_watch_paths-IsWatch hints (fresh_watch m, w₂) (fresh_watch-IsWatch m)))
