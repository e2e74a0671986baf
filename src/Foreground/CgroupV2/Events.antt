-- ===== src/Foreground/CgroupV2/Events.antt =====
-- The events of services/foreground/cgroup_v2.rs: those of a watched file, and those of the roots.
use core_shift_engine.Base.{
  ℕ, ◌+◌, Bool, true, false, not, ◌&&◌, ◌||◌, Option, none, some, Result, ok, err, ◌==◌, nat_ord,
  text_ord, if◌then◌else◌,
}
use Prim.Native.Nat.{bit_and}
use core_shift_engine.Btree.Map.{BtreeMap, keys}
use core_shift_engine.Btree.Map
use core_shift_engine.Btree.Set.{BtreeSet}
use core_shift_engine.Btree.Set
use core_shift_engine.Paths.{FilePath, path_ord, join_name}
use core_shift_engine.Host.{Host}
use core_shift_engine.Error.{EngineError}
use core_shift_engine.Foreground.CgroupV2.Parse.{parse_uid_dir_name}
use core_shift_engine.Foreground.CgroupV2.{
  UidWatch, CgroupV2EventsSource, V2Answer, events_name, holds, has_parent, add_uid_watch,
  remove_uid_watch_path, rescan_roots, handle_uid_populated_at, handle_stale_events_path,
  read_cgroup_events_populated,
}
use core_shift_engine.Foreground.CgroupV2.Buffer.{drain_events_fd, read_events_fd_populated}

abbrev pub in_create_or_moved_to : ℕ
in_create_or_moved_to = 0x100 + 0x80

abbrev pub in_delete_or_moved_from : ℕ
in_delete_or_moved_from = 0x200 + 0x40

abbrev pub in_self_or_ignored : ℕ
in_self_or_ignored = 0x400 + 0x800 + 0x8000

abbrev pub v2_overflow_mask : ℕ
v2_overflow_mask = 0x4000

abbrev pub has_mask : ℕ → ℕ → Bool
has_mask mask bits = not (bit_and mask bits == 0)

module _ {h : Host} where
  -- What goes on with the source as it was, once a call on the world has answered.
  abbrev pub answered :
      {A : Type 0}
      → CgroupV2EventsSource h
      → (A → h.World → V2Answer h)
      → Result A (EngineError h) × h.World
      → V2Answer h
  answered s rest (ok a, w) = rest a w
  answered s rest (err e, w) = (err e, (s, w))

  abbrev pub watched_events : FilePath → CgroupV2EventsSource h → h.World → UidWatch h → V2Answer h
  watched_events path s w watch =
      if not (h.exists watch.events_path w)
      then handle_stale_events_path path (s, w)
      else answered s
          (λ (u : Unit {0}) w₁.
            answered s (λ populated w₂. handle_uid_populated_at path watch.uid populated (s, w₂))
              (read_events_fd_populated s path w₁))
          (drain_events_fd s path w)

  abbrev pub path_events :
      FilePath → CgroupV2EventsSource h → h.World → Option (UidWatch h) → V2Answer h
  path_events path s w none = (ok none, rescan_roots (s, w))
  path_events path s w (some watch) = watched_events path s w watch

  unfoldable pub handle_events_path : FilePath → CgroupV2EventsSource h × h.World → V2Answer h
  unfolding handle_stale_events_path handle_uid_populated_at
  handle_events_path path (s, w) = path_events path s w (Map.get s.watches path)

  -- A directory that has come: it is watched, and its state is read.
  abbrev pub first_state : FilePath → ℕ → Bool × (CgroupV2EventsSource h × h.World) → V2Answer h
  first_state events_path uid (false, t) = (ok none, t)
  first_state events_path uid (true, (s, w)) =
      answered s (λ populated w'. handle_uid_populated_at events_path uid populated (s, w'))
        (read_cgroup_events_populated events_path w)

  abbrev pub uid_dir_event : FilePath → ℕ → CgroupV2EventsSource h → h.World → Option ℕ → V2Answer h
  uid_dir_event path mask s w none = (ok none, (s, w))
  uid_dir_event path mask s w (some uid) =
      let events_path = join_name path events_name in
      if has_mask mask in_delete_or_moved_from || not (h.exists path w)
      then (ok none, ((remove_uid_watch_path events_path uid s).1, w))
      else if not (has_mask mask in_create_or_moved_to) && not (mask == 0)
      then (ok none, (s, w))
      else if not (has_parent s.roots path)
      then (ok none, (s, w))
      else first_state events_path uid (add_uid_watch path uid (s, w))

  abbrev pub marked_stale : CgroupV2EventsSource h → FilePath → CgroupV2EventsSource h
  marked_stale s path =
      if holds s.roots path then record s { stale_roots = Set.insert s.stale_roots path } else s

  unfoldable pub handle_root_path : FilePath → ℕ → CgroupV2EventsSource h × h.World → V2Answer h
  unfolding rescan_roots add_uid_watch remove_uid_watch_path handle_uid_populated_at
  handle_root_path path mask (s, w) =
      if has_mask mask v2_overflow_mask
      then (ok none, rescan_roots (s, w))
      else if has_mask mask in_self_or_ignored
      then (ok none, rescan_roots (marked_stale s path, w))
      else uid_dir_event path mask s w (parse_uid_dir_name path)
