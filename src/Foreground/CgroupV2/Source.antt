-- ===== src/Foreground/CgroupV2/Source.antt =====
-- `impl ForegroundSource for CgroupV2EventsSource` of services/foreground/cgroup_v2.rs.
use core_shift_engine.Base.{
  ℕ, ◌+◌, Bool, true, false, List, [], ◌∷◌, Option, none, some, Result, ok, err, Act, and_then,
  nat_ord, text_ord, if◌then◌else◌, map,
}
use core_shift_engine.Btree.Map.{BtreeMap, keys}
use core_shift_engine.Btree.Map
use core_shift_engine.Btree.Set.{BtreeSet}
use core_shift_engine.Btree.Set
use core_shift_engine.Paths.{FilePath, path_ord}
use core_shift_engine.Host.{Host, IoErrorKind, not_found}
use core_shift_engine.Error.{EngineError, core, io}
use core_shift_engine.Foreground.Source.{ForegroundSource, ForegroundCandidate, cgroup_v2}
use core_shift_engine.Foreground.CgroupV2.Parse.{CgroupV2Populated, active}
use core_shift_engine.Foreground.CgroupV2.{
  UidWatch, CgroupV2EventsSource, V2Answer, holds, has_parent, remove_events_path, rescan_roots,
  mark_populated, v2_candidate_for_uid, handle_stale_events_path, read_cgroup_events_populated,
}
use core_shift_engine.Foreground.CgroupV2.{v2_is_available}
use core_shift_engine.Foreground.CgroupV2.Events.{
  has_mask, v2_overflow_mask, handle_root_path, handle_events_path,
}

module _ {h : Host} where
  abbrev pub is_not_found : EngineError h → Bool
  is_not_found (io e) = is_not_found_kind e.kind
    where
      is_not_found_kind : IoErrorKind → Bool
      is_not_found_kind not_found = true
      is_not_found_kind _ = false
  is_not_found _ = false

  -- One path of a poll: `rest` goes on with the next one.
  abbrev pub first_candidate :
      (CgroupV2EventsSource h × h.World → V2Answer h)
      → CgroupV2EventsSource h × h.World
      → Option ForegroundCandidate
      → V2Answer h
  first_candidate rest t none = rest t
  first_candidate rest t (some c) = (ok (some c), t)

  abbrev pub polled_state :
      (CgroupV2EventsSource h × h.World → V2Answer h)
      → FilePath
      → ℕ
      → CgroupV2EventsSource h
      → Result CgroupV2Populated (EngineError h) × h.World
      → V2Answer h
  polled_state rest path uid s (ok active, w) =
      let s' = mark_populated s path active in
      first_candidate rest (s', w) (v2_candidate_for_uid s' uid)
  polled_state rest path uid s (ok populated, w) = rest (mark_populated s path populated, w)
  polled_state rest path uid s (err e, w) =
      if is_not_found e
      then rest (rescan_roots ((remove_events_path path s).1, w))
      else (err e, (s, w))

  abbrev pub polled_watch :
      (CgroupV2EventsSource h × h.World → V2Answer h)
      → FilePath
      → CgroupV2EventsSource h
      → h.World
      → Option (UidWatch h)
      → V2Answer h
  polled_watch rest path s w none = rest (s, w)
  polled_watch rest path s w (some watch) =
      polled_state rest path watch.uid s (read_cgroup_events_populated watch.events_path w)

  unfoldable pub poll_paths : List FilePath → CgroupV2EventsSource h × h.World → V2Answer h
  unfolding rescan_roots remove_events_path v2_candidate_for_uid
  poll_paths [] t = (ok none, t)
  poll_paths (path ∷ paths) (s, w) =
      polled_watch (poll_paths paths) path s w (Map.get s.watches path)

  -- The paths are those at the beginning.
  unfoldable pub v2_poll_current : CgroupV2EventsSource h × h.World → V2Answer h
  unfolding poll_paths
  v2_poll_current (s, w) = poll_paths (keys s.watches) (s, w)

  unfoldable pub v2_handle_fs_event_with_mask :
      FilePath → ℕ → CgroupV2EventsSource h × h.World → V2Answer h
  unfolding handle_root_path
  v2_handle_fs_event_with_mask path mask (s, w) =
      if has_mask mask v2_overflow_mask
      then handle_root_path path mask (s, w)
      else if holds s.roots path
      then handle_root_path path mask (s, w)
      else if has_parent s.roots path
      then handle_root_path path mask (s, w)
      else (ok none, (s, w))

  abbrev registered_next :
      FilePath
      → Act (EngineError h) h.World (List (h.Token × FilePath))
      → Result h.Token h.CoreError × h.World
      → Result (List (h.Token × FilePath)) (EngineError h) × h.World
  registered_next path rest (err e, w) = (err (core e), w)
  registered_next path rest (ok token, w) =
      and_then (rest w) λ registrations w'. (ok ((token, path) ∷ registrations), w')

  unfoldable pub register_each :
      BtreeMap FilePath (UidWatch h)
      → BtreeSet FilePath
      → Act (EngineError h) h.World (List (h.Token × FilePath))
  register_each [] registered w = (ok [], w)
  register_each ((path, watch) ∷ rest) registered w =
      if Set.contains registered path
      then register_each rest registered w
      else registered_next path (register_each rest registered) (h.add_priority watch.events_fd w)

  abbrev unregistered_fd :
      Result (Unit {0}) h.CoreError × h.World → Result Bool (EngineError h) × h.World
  unregistered_fd (ok u, w) = (ok true, w)
  unregistered_fd (err e, w) = (err (core e), w)

  unfoldable pub v2_unregister_priority_fd :
      CgroupV2EventsSource h → FilePath → Act (EngineError h) h.World Bool
  v2_unregister_priority_fd s path w = elim (Map.get s.watches path) [
    | none ↦ (ok false, w)
    | some watch ↦ unregistered_fd (h.del watch.events_fd w)
  ]

-- `impl ForegroundSource for CgroupV2EventsSource`
unfoldable pub v2_source : (h : Host) → ForegroundSource h (CgroupV2EventsSource h)
unfolding v2_poll_current v2_handle_fs_event_with_mask handle_events_path handle_stale_events_path
v2_source h = record {
  kind = λ s. cgroup_v2;
  poll_current = v2_poll_current;
  handle_fs_event_with_mask = v2_handle_fs_event_with_mask;
  watch_hint_paths = λ s. s.watch_hint_paths;
  is_available = v2_is_available;
  watch_hint_mask = λ s path. 0x100 + 0x200 + 0x40 + 0x80 + 0x400 + 0x800 + 0x8000;
  register_priority_fds = λ s. register_each s.watches;
  priority_hint_paths = λ s. keys s.watches;
  priority_hint_keys = λ s. map (λ e. (e.0, e.1.generation)) s.watches;
  handle_priority_event = handle_events_path;
  handle_stale_priority_event = handle_stale_events_path;
  unregister_priority_fd = v2_unregister_priority_fd;
}
