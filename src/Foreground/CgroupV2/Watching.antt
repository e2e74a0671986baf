-- ===== src/Foreground/CgroupV2/Watching.antt =====
-- What the operations on the watches keep.
use core_shift_engine.Base.{
  ℕ, ◌≡◌, refl, Bool, true, not, List, [], ◌∷◌, Option, none, some, Result, ok, err, Each, Each-imp,
  Each-apply, Bool-cases, inl, inr, if_both, if◌then◌else◌, nat_ord, text_ord,
}
use core_shift_engine.Btree.Map.{BtreeMap, Among-get, insert-Each, remove-Each}
use core_shift_engine.Btree.Map
use core_shift_engine.Paths.{FilePath, path_ord, join_name}
use core_shift_engine.Host.{Host, IoError}
use core_shift_engine.Error.{EngineError}
use core_shift_engine.Foreground.Source.{is_valid_uid}
use core_shift_engine.Foreground.CgroupV2.Parse.{CgroupV2Populated, parse_uid_dir_name}
use core_shift_engine.Foreground.CgroupV2.{
  UidWatch, CgroupV2EventsSource, events_name, added_watch, add_uid_watch, scan_uid, scan_entries,
  scan_root, scan_each, scan_roots, remove_uid_watch_path, remove_events_path, vanished,
  remove_each, rescan_roots, has_uid, set_populated, mark_populated, open_cgroup_events_fd,
}

-- What is claimed of each watch, `Q`, and of its uid, `R`, for a source that is configured as `c`: an
-- added watch has it, and a watch keeps it when the state of its control group is written.
pub record Claim {h : Host} (c : CgroupV2EventsSource h) : Type 1 where
  pub Q : FilePath × UidWatch h → Type 0
  pub R : ℕ → Type 0
  pub added :
      (dir : FilePath) (watch : UidWatch h)
      → is_valid_uid c.filter watch.uid ≡ true
      → parse_uid_dir_name dir ≡ some watch.uid
      → watch.events_path ≡ join_name dir events_name
      → Q (join_name dir events_name, watch)
  pub valid : (uid : ℕ) → is_valid_uid c.filter uid ≡ true → R uid
  pub uid_of : (path : FilePath) (watch : UidWatch h) → Q (path, watch) → R watch.uid
  pub written :
      (path : FilePath) (watch : UidWatch h) (populated : CgroupV2Populated)
      → Q (path, watch)
      → Q (path, record watch { populated = populated })

-- The configuration is that of `c`, and each watch is as claimed.
pub record IsWatching {h : Host} (c : CgroupV2EventsSource h) (k : Claim c)
    (s : CgroupV2EventsSource h) : Type 0 where
  pub same_roots : s.roots ≡ c.roots
  pub same_hints : s.watch_hint_paths ≡ c.watch_hint_paths
  pub same_filter : s.filter ≡ c.filter
  pub same_cache : s.package_cache ≡ c.package_cache
  pub watched : Each k.Q s.watches

module _ {h : Host} (c : CgroupV2EventsSource h) (k : Claim c) where
  with_watches :
      (s : CgroupV2EventsSource h) (m : BtreeMap FilePath (UidWatch h))
      → IsWatching c k s
      → Each k.Q m
      → IsWatching c k (record s { watches = m })
  with_watches s m i e = record {
    same_roots = i.same_roots;
    same_hints = i.same_hints;
    same_filter = i.same_filter;
    same_cache = i.same_cache;
    watched = e;
  }

  added_watch-IsWatching :
      (s : CgroupV2EventsSource h) (dir : FilePath) (uid : ℕ)
      (r : Result h.Fd (EngineError h) × h.World)
      → is_valid_uid s.filter uid ≡ true
      → parse_uid_dir_name dir ≡ some uid
      → IsWatching c k s
      → IsWatching c k (added_watch s (join_name dir events_name) uid r).1.0
  added_watch-IsWatching s dir uid (err e, w) v p i = i
  added_watch-IsWatching s dir uid (ok fd, w) v p i = record {
    same_roots = i.same_roots;
    same_hints = i.same_hints;
    same_filter = i.same_filter;
    same_cache = i.same_cache;
    watched =
        insert-Each k.Q s.watches (join_name dir events_name) _
          (k.added dir _ (rw i.same_filter at v) p refl) i.watched;
  }

  -- A directory that is added is watched for a valid uid.
  pub add_uid_watch-IsWatching :
      (dir : FilePath) (uid : ℕ) (s : CgroupV2EventsSource h) (w : h.World)
      → parse_uid_dir_name dir ≡ some uid
      → IsWatching c k s
      → IsWatching c k (add_uid_watch dir uid (s, w)).1.0
        × ((add_uid_watch dir uid (s, w)).0 ≡ true → k.R uid)
  unfolding add_uid_watch
  add_uid_watch-IsWatching dir uid s w p i = elim (Bool-cases (is_valid_uid s.filter uid)) [
    | inl v ↦ rw v (
      if_both (λ (r : Bool × (CgroupV2EventsSource h × h.World)). IsWatching c k r.1.0)
          (Map.contains_key s.watches (join_name dir events_name)) i
          (added_watch-IsWatching s dir uid (open_cgroup_events_fd (join_name dir events_name) w) v
            p i),
      λ t. k.valid uid (rw i.same_filter at v),
    )
    | inr n ↦ rw n (i, λ t. cc)
  ]

  scan_uid-IsWatching :
      (dir : FilePath) (o : Option ℕ) (t : CgroupV2EventsSource h × h.World)
      → parse_uid_dir_name dir ≡ o
      → IsWatching c k t.0
      → IsWatching c k (scan_uid dir o t).0
  scan_uid-IsWatching dir none t p i = i
  scan_uid-IsWatching dir (some uid) t p i = (add_uid_watch-IsWatching dir uid t.0 t.1 p i).0

  scan_entries-IsWatching :
      (entries : List FilePath) (s : CgroupV2EventsSource h) (w : h.World)
      → IsWatching c k s
      → IsWatching c k (scan_entries entries (s, w)).0
  unfolding scan_entries
  scan_entries-IsWatching [] s w i = i
  scan_entries-IsWatching (dir ∷ entries) s w i =
      let t =
        if not (h.is_dir dir w) then (s, w) else scan_uid dir (parse_uid_dir_name dir) (s, w) in
      scan_entries-IsWatching entries t.0 t.1 (
        if_both (λ (t : CgroupV2EventsSource h × h.World). IsWatching c k t.0)
          (not (h.is_dir dir w)) i (scan_uid-IsWatching dir (parse_uid_dir_name dir) (s, w) refl i))

  scan_root-IsWatching :
      (s : CgroupV2EventsSource h) (r : Result (List FilePath) IoError × h.World)
      → IsWatching c k s
      → IsWatching c k (scan_root s r).0
  scan_root-IsWatching s (ok entries, w) i = scan_entries-IsWatching entries s w i
  scan_root-IsWatching s (err e, w) i = i

  scan_each-IsWatching :
      (roots : List FilePath) (s : CgroupV2EventsSource h) (w : h.World)
      → IsWatching c k s
      → IsWatching c k (scan_each roots (s, w)).0
  unfolding scan_each
  scan_each-IsWatching [] s w i = i
  scan_each-IsWatching (root ∷ roots) s w i =
      let t = scan_root s (h.read_dir root w) in
      scan_each-IsWatching roots t.0 t.1 (scan_root-IsWatching s (h.read_dir root w) i)

  pub scan_roots-IsWatching :
      (s : CgroupV2EventsSource h) (w : h.World)
      → IsWatching c k s
      → IsWatching c k (scan_roots (s, w)).0
  unfolding scan_roots
  scan_roots-IsWatching s w i = scan_each-IsWatching s.roots s w i

  removed-Each :
      (s : CgroupV2EventsSource h) (path : FilePath)
      → IsWatching c k s
      → Each k.Q (Map.remove s.watches path)
  removed-Each s path i = Each-imp _ _ (λ x e. e.0) _ (remove-Each k.Q s.watches path i.watched)

  pub remove_uid_watch_path-IsWatching :
      (path : FilePath) (uid : ℕ) (s : CgroupV2EventsSource h)
      → IsWatching c k s
      → IsWatching c k (remove_uid_watch_path path uid s).1
  unfolding remove_uid_watch_path
  remove_uid_watch_path-IsWatching path uid s i =
      if_both (λ (r : Bool × CgroupV2EventsSource h). IsWatching c k r.1)
        (has_uid (Map.get s.watches path) uid)
        (with_watches s (Map.remove s.watches path) i (removed-Each s path i)) i

  pub remove_events_path-IsWatching :
      (path : FilePath) (s : CgroupV2EventsSource h)
      → IsWatching c k s
      → IsWatching c k (remove_events_path path s).1
  unfolding remove_events_path
  remove_events_path-IsWatching path s i =
      with_watches s (Map.remove s.watches path) i (removed-Each s path i)

  remove_each-IsWatching :
      (es : List (FilePath × UidWatch h)) (s : CgroupV2EventsSource h)
      → IsWatching c k s
      → IsWatching c k (remove_each es s)
  unfolding remove_each
  remove_each-IsWatching [] s i = i
  remove_each-IsWatching ((path, watch) ∷ es) s i =
      remove_each-IsWatching es (remove_uid_watch_path path watch.uid s).1
        (remove_uid_watch_path-IsWatching path watch.uid s i)

  pub rescan_roots-IsWatching :
      (s : CgroupV2EventsSource h) (w : h.World)
      → IsWatching c k s
      → IsWatching c k (rescan_roots (s, w)).0
  unfolding rescan_roots
  rescan_roots-IsWatching s w i =
      scan_roots-IsWatching (remove_each (vanished s w) s) w
        (remove_each-IsWatching (vanished s w) s i)

  -- A watch that is found is as claimed.
  pub get-Q :
      (s : CgroupV2EventsSource h) (path : FilePath) (watch : UidWatch h)
      → IsWatching c k s
      → Map.get s.watches path ≡ some watch
      → k.Q (path, watch)
  get-Q s path watch i found =
      Each-apply k.Q (path, watch) s.watches i.watched (Among-get s.watches path watch found)

  pub mark_populated-IsWatching :
      (s : CgroupV2EventsSource h) (path : FilePath) (populated : CgroupV2Populated)
      → IsWatching c k s
      → IsWatching c k (mark_populated s path populated)
  mark_populated-IsWatching s path populated i = by_watch (Map.get s.watches path) refl
    where
      by_watch :
          (o : Option (UidWatch h))
          → Map.get s.watches path ≡ o
          → IsWatching c k (set_populated s path populated o)
      by_watch none e = i
      by_watch (some watch) e = with_watches s _ i (
          insert-Each k.Q s.watches path (record watch { populated = populated })
            (k.written path watch populated (get-Q s path watch i e)) i.watched)
