-- ===== src/Foreground/CgroupV2/Replies.antt =====
-- What the methods of the source answer.
use core_shift_engine.Base.{
  ℕ, ◌≡◌, refl, Bool, true, false, not, ◌&&◌, ◌||◌, Option, none, some, Result, ok, err, Bool-cases,
  inl, inr, if_both, nat_ord, text_ord, ◌==◌,
}
use core_shift_engine.Btree.Map.{BtreeMap, Among-get, insert-Each, remove-Each}
use core_shift_engine.Btree.Map
use core_shift_engine.Btree.Set
use core_shift_engine.Text.Chars.{Text}
use core_shift_engine.Paths.{FilePath, path_ord, join_name}
use core_shift_engine.Host.{Host}
use core_shift_engine.Error.{EngineError}
use core_shift_engine.Foreground.Cache.{
  UidPackageCache, UidPackageState, exact, missing, ambiguous, uid_state,
}
use core_shift_engine.Foreground.Source.{ForegroundCandidate, cgroup_v2}
use core_shift_engine.Foreground.CgroupV2.Parse.{
  CgroupV2Populated, active, inactive, unknown, parse_uid_dir_name,
}
use core_shift_engine.Foreground.CgroupV2.{
  UidWatch, CgroupV2EventsSource, V2Answer, events_name, add_uid_watch, remove_events_path,
  rescan_roots, exact_candidate, v2_candidate_for_uid, mark_populated, populated_candidate,
  handle_uid_populated_at, handle_stale_events_path,
}
use core_shift_engine.Btree.Map.{keys}
use core_shift_engine.Foreground.CgroupV2.{read_cgroup_events_populated, has_parent, holds}
use core_shift_engine.Foreground.CgroupV2.Buffer.{drain_events_fd, read_events_fd_populated}
use core_shift_engine.Foreground.CgroupV2.Events.{
  answered, path_events, handle_events_path, first_state, uid_dir_event, marked_stale,
  handle_root_path, has_mask, v2_overflow_mask, in_self_or_ignored, in_delete_or_moved_from,
  in_create_or_moved_to,
}
use core_shift_engine.Foreground.CgroupV2.Source.{v2_handle_fs_event_with_mask}
use core_shift_engine.Foreground.CgroupV2.Watching.{
  Claim, IsWatching, add_uid_watch-IsWatching, remove_uid_watch_path-IsWatching,
  remove_events_path-IsWatching, rescan_roots-IsWatching, get-Q, mark_populated-IsWatching,
}

-- The candidate names the package that the cache has for a uid of which `R` holds, and which is not
-- blocked.
pub record Names {h : Host} (c : CgroupV2EventsSource h) (R : ℕ → Type 0)
    (candidate : ForegroundCandidate) : Type 0 where
  pub uid : ℕ
  pub package_name : Text
  pub cache : UidPackageCache
  pub proper : R uid
  pub known : (c.package_cache ≡ some cache) × (uid_state cache uid ≡ exact package_name)
  pub allowed : Set.contains c.filter.blocked_packages package_name ≡ false
  pub same : candidate ≡ record {
    source = cgroup_v2;
    pid = none;
    uid = some uid;
    package_name = some package_name;
    identity_resolved = true;
  }

module _ {h : Host} (c : CgroupV2EventsSource h) (k : Claim c) where
  abbrev pub MaybeNames : Option ForegroundCandidate → Type 0
  MaybeNames none = Unit
  MaybeNames (some candidate) = Names c k.R candidate

  -- What a method answers, and the source it leaves.
  abbrev pub Replies : V2Answer h → Type 0
  Replies (ok candidate, (s, w)) = MaybeNames candidate × IsWatching c k s
  Replies (err e, (s, w)) = IsWatching c k s

  exact_candidate-Names :
      (s : CgroupV2EventsSource h) (uid : ℕ) (cache : UidPackageCache) (state : UidPackageState)
      → IsWatching c k s
      → k.R uid
      → s.package_cache ≡ some cache
      → uid_state cache uid ≡ state
      → MaybeNames (exact_candidate s uid state)
  exact_candidate-Names s uid cache missing i r e u = tt
  exact_candidate-Names s uid cache (ambiguous ps) i r e u = tt
  exact_candidate-Names s uid cache (exact p) i r e u =
      elim (Bool-cases (Set.contains s.filter.blocked_packages p)) [
        | inl blocked ↦ rw blocked tt
        | inr allowed ↦ rw allowed (record {
          uid = uid;
          package_name = p;
          cache = cache;
          proper = r;
          known = (rw i.same_cache at e, u);
          allowed = rw i.same_filter at allowed;
          same = refl;
        })
      ]

  pub v2_candidate_for_uid-Names :
      (s : CgroupV2EventsSource h) (uid : ℕ)
      → IsWatching c k s
      → k.R uid
      → MaybeNames (v2_candidate_for_uid s uid)
  unfolding v2_candidate_for_uid
  v2_candidate_for_uid-Names s uid i r = by_cache s.package_cache refl
    where
      by_cache :
          (o : Option UidPackageCache)
          → s.package_cache ≡ o
          → MaybeNames (elim o as (λ x. Option ForegroundCandidate) [
            | none ↦ none
            | some cache ↦ exact_candidate s uid (uid_state cache uid)
          ])
      by_cache none e = tt
      by_cache (some cache) e = exact_candidate-Names s uid cache (uid_state cache uid) i r e refl

  handle_uid_populated_at-Replies :
      (path : FilePath) (uid : ℕ) (populated : CgroupV2Populated) (s : CgroupV2EventsSource h)
      (w : h.World)
      → IsWatching c k s
      → k.R uid
      → Replies (handle_uid_populated_at path uid populated (s, w))
  unfolding handle_uid_populated_at
  handle_uid_populated_at-Replies path uid populated s w i r =
      if_both Replies (not (Map.contains_key s.watches path)) (tt, i) (marked populated)
    where
      marked :
          (p : CgroupV2Populated)
          → Replies (
            ok (populated_candidate (mark_populated s path p) uid p),
            (mark_populated s path p, w),
          )
      marked active =
          let j = mark_populated-IsWatching c k s path active i in
          (v2_candidate_for_uid-Names (mark_populated s path active) uid j r, j)
      marked inactive = (tt, mark_populated-IsWatching c k s path inactive i)
      marked unknown = (tt, mark_populated-IsWatching c k s path unknown i)

  rescan-Replies :
      (s : CgroupV2EventsSource h) (w : h.World)
      → IsWatching c k s
      → Replies (ok none, rescan_roots (s, w))
  rescan-Replies s w i = (tt, rescan_roots-IsWatching c k s w i)

  pub handle_stale_events_path-Replies :
      (path : FilePath) (s : CgroupV2EventsSource h) (w : h.World)
      → IsWatching c k s
      → Replies (handle_stale_events_path path (s, w))
  unfolding handle_stale_events_path
  handle_stale_events_path-Replies path s w i =
      rescan-Replies (remove_events_path path s).1 w (remove_events_path-IsWatching c k path s i)

  answered-Replies :
      {A : Type 0} (s : CgroupV2EventsSource h) (rest : A → h.World → V2Answer h)
      (r : Result A (EngineError h) × h.World)
      → IsWatching c k s
      → ((a : A) (w : h.World) → Replies (rest a w))
      → Replies (answered s rest r)
  answered-Replies s rest (ok a, w) i f = f a w
  answered-Replies s rest (err e, w) i f = i

  path_events-Replies :
      (path : FilePath) (s : CgroupV2EventsSource h) (w : h.World) (o : Option (UidWatch h))
      → Map.get s.watches path ≡ o
      → IsWatching c k s
      → Replies (path_events path s w o)
  path_events-Replies path s w none e i = rescan-Replies s w i
  path_events-Replies path s w (some watch) e i =
      if_both Replies (not (h.exists watch.events_path w))
        (handle_stale_events_path-Replies path s w i)
        (answered-Replies s _ (drain_events_fd s path w) i λ u w₁.
          answered-Replies s _ (read_events_fd_populated s path w₁) i λ populated w₂.
            handle_uid_populated_at-Replies path watch.uid populated s w₂ i
              (k.uid_of path watch (get-Q c k s path watch i e)))

  pub handle_events_path-Replies :
      (path : FilePath) (s : CgroupV2EventsSource h) (w : h.World)
      → IsWatching c k s
      → Replies (handle_events_path path (s, w))
  unfolding handle_events_path
  handle_events_path-Replies path s w i =
      path_events-Replies path s w (Map.get s.watches path) refl i

  first_state-Replies :
      (path : FilePath) (uid : ℕ) (r : Bool × (CgroupV2EventsSource h × h.World))
      → IsWatching c k r.1.0
      → (r.0 ≡ true → k.R uid)
      → Replies (first_state path uid r)
  first_state-Replies path uid (false, (s, w)) i f = (tt, i)
  first_state-Replies path uid (true, (s, w)) i f =
      answered-Replies s _ (read_cgroup_events_populated path w) i
        λ populated w'. handle_uid_populated_at-Replies path uid populated s w' i (f refl)

  uid_dir_event-Replies :
      (path : FilePath) (mask : ℕ) (s : CgroupV2EventsSource h) (w : h.World) (o : Option ℕ)
      → parse_uid_dir_name path ≡ o
      → IsWatching c k s
      → Replies (uid_dir_event path mask s w o)
  uid_dir_event-Replies path mask s w none p i = (tt, i)
  uid_dir_event-Replies path mask s w (some uid) p i =
      let events_path = join_name path events_name in
      let (j, f) = add_uid_watch-IsWatching c k path uid s w p i in
      if_both Replies (has_mask mask in_delete_or_moved_from || not (h.exists path w))
        (tt, remove_uid_watch_path-IsWatching c k events_path uid s i)
        (if_both Replies (not (has_mask mask in_create_or_moved_to) && not (mask == 0)) (tt, i)
          (if_both Replies (not (has_parent s.roots path)) (tt, i)
            (first_state-Replies events_path uid (add_uid_watch path uid (s, w)) j f)))

  marked_stale-IsWatching :
      (s : CgroupV2EventsSource h) (path : FilePath)
      → IsWatching c k s
      → IsWatching c k (marked_stale s path)
  marked_stale-IsWatching s path i =
      if_both (IsWatching c k) (holds s.roots path)
        (record {
          same_roots = i.same_roots;
          same_hints = i.same_hints;
          same_filter = i.same_filter;
          same_cache = i.same_cache;
          watched = i.watched;
        })
        i

  handle_root_path-Replies :
      (path : FilePath) (mask : ℕ) (s : CgroupV2EventsSource h) (w : h.World)
      → IsWatching c k s
      → Replies (handle_root_path path mask (s, w))
  unfolding handle_root_path
  handle_root_path-Replies path mask s w i =
      if_both Replies (has_mask mask v2_overflow_mask) (rescan-Replies s w i) (
        if_both Replies (has_mask mask in_self_or_ignored)
          (rescan-Replies (marked_stale s path) w (marked_stale-IsWatching s path i))
          (uid_dir_event-Replies path mask s w (parse_uid_dir_name path) refl i))

  pub v2_handle_fs_event_with_mask-Replies :
      (path : FilePath) (mask : ℕ) (s : CgroupV2EventsSource h) (w : h.World)
      → IsWatching c k s
      → Replies (v2_handle_fs_event_with_mask path mask (s, w))
  unfolding v2_handle_fs_event_with_mask
  v2_handle_fs_event_with_mask-Replies path mask s w i =
      let root = handle_root_path-Replies path mask s w i in
      if_both Replies (has_mask mask v2_overflow_mask) root (
        if_both Replies (holds s.roots path) root
          (if_both Replies (has_parent s.roots path) root (tt, i)))
