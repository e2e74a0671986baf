-- ===== src/Foreground/CgroupV2/Contract.antt =====
-- The source as an implementation of the interface.
use core_shift_engine.Base.{
  ℕ, ◌≡◌, refl, true, List, [], ◌∷◌, some, ok, err, Each, nat_ord, text_ord,
}
use core_shift_engine.Btree.Map.{BtreeMap}
use core_shift_engine.Paths.{FilePath, path_ord, join_name}
use core_shift_engine.Host.{Host}
use core_shift_engine.Foreground.Source.{ForegroundCandidateFilter, is_valid_uid}
use core_shift_engine.Foreground.CgroupV2.Parse.{parse_uid_dir_name}
use core_shift_engine.Foreground.CgroupV2.{
  UidWatch, CgroupV2EventsSource, V2Answer, events_name, bare_v2, new_v2, handle_stale_events_path,
}
use core_shift_engine.Foreground.CgroupV2.Events.{handle_events_path}
use core_shift_engine.Foreground.CgroupV2.Source.{
  v2_poll_current, v2_handle_fs_event_with_mask, v2_source,
}
use core_shift_engine.Foreground.CgroupV2.Watching.{Claim, IsWatching, scan_roots-IsWatching}
use core_shift_engine.Foreground.Auto.Hints.{KeepsHints}
use core_shift_engine.Foreground.CgroupV2.Replies.{
  Replies, handle_stale_events_path-Replies, handle_events_path-Replies,
  v2_handle_fs_event_with_mask-Replies,
}
use core_shift_engine.Foreground.CgroupV2.Polls.{v2_poll_current-Replies}

-- Each watch stands at the events file of a directory that is named for its uid, and the filter of the
-- source takes the uid.
abbrev pub is_proper : {h : Host} (c : CgroupV2EventsSource h) → Claim c
is_proper c = record {
  Q = λ x.
      (x.1.events_path ≡ x.0)
      × (is_valid_uid c.filter x.1.uid ≡ true)
      × ((dir : FilePath) × (parse_uid_dir_name dir ≡ some x.1.uid)
          × (x.0 ≡ join_name dir events_name));
  R = λ uid. is_valid_uid c.filter uid ≡ true;
  added = λ dir watch v p e. (e, v, (dir, p, refl));
  valid = λ uid v. v;
  uid_of = λ path watch q. q.1;
  written = λ path watch populated q. q;
}

abbrev nothing : {h : Host} (c : CgroupV2EventsSource h) → Claim c
nothing c = record {
  Q = λ x. Unit;
  R = λ uid. Unit;
  added = λ dir watch v p e. tt;
  valid = λ uid v. tt;
  uid_of = λ path watch q. tt;
  written = λ path watch populated q. tt;
}

module _ {h : Host} where
  -- A new source is configured with the given roots, which it hints at, and the given filter; and
  -- each of its watches stands at the events file of a directory named for its uid, which the
  -- filter takes.
  pub new_v2-IsWatching :
      (roots : List FilePath) (filter : ForegroundCandidateFilter) (w : h.World)
      → let c = bare_v2 {h = h} roots filter in
        IsWatching c (is_proper c) (new_v2 {h = h} roots filter w).0
  unfolding new_v2
  new_v2-IsWatching roots filter w =
      let c = bare_v2 {h = h} roots filter in
      scan_roots-IsWatching c (is_proper c) c w (record {
        same_roots = refl;
        same_hints = refl;
        same_filter = refl;
        same_cache = refl;
        watched = tt;
      })

  -- Polling and the three event handlers keep the configuration, and that each watch stands at the
  -- events file of a directory named for its uid, which the filter takes, also when they fail. A
  -- candidate that one of them answers has a uid that the filter takes, names the one package that
  -- the cache has for it, and that package is not blocked.
  pub v2_source-Replies :
      (c s : CgroupV2EventsSource h) (path : FilePath) (mask : ℕ) (w : h.World)
      → IsWatching c (is_proper c) s
      → Replies c (is_proper c) ((v2_source h).poll_current (s, w))
        × Replies c (is_proper c) ((v2_source h).handle_fs_event_with_mask path mask (s, w))
        × Replies c (is_proper c) ((v2_source h).handle_priority_event path (s, w))
        × Replies c (is_proper c) ((v2_source h).handle_stale_priority_event path (s, w))
  unfolding v2_source
  v2_source-Replies c s path mask w i = (
    v2_poll_current-Replies c (is_proper c) s w i,
    v2_handle_fs_event_with_mask-Replies c (is_proper c) path mask s w i,
    handle_events_path-Replies c (is_proper c) path s w i,
    handle_stale_events_path-Replies c (is_proper c) path s w i,
  )

  left :
      (c : CgroupV2EventsSource h) (r : V2Answer h)
      → Replies c (nothing c) r
      → r.1.0.watch_hint_paths ≡ c.watch_hint_paths
  left c (ok candidate, (s, w)) e = e.1.same_hints
  left c (err x, (s, w)) e = e.same_hints

  unclaimed : (s : CgroupV2EventsSource h) → IsWatching s (nothing s) s
  unclaimed s = record {
    same_roots = refl;
    same_hints = refl;
    same_filter = refl;
    same_cache = refl;
    watched = all_unit s.watches;
  }
    where
      all_unit : (m : BtreeMap FilePath (UidWatch h)) → Each (λ x. Unit {0}) m
      all_unit [] = tt
      all_unit (x ∷ m) = (tt, all_unit m)

-- The methods of this source leave its hint paths alone, which is what the automatic source asks of
-- its layouts.
pub v2_source-KeepsHints : (h : Host) → KeepsHints (v2_source h)
unfolding v2_source
v2_source-KeepsHints h = record {
  poll = λ (s, w).
      left s (v2_poll_current (s, w)) (v2_poll_current-Replies s (nothing s) s w (unclaimed s));
  fs_event = λ path mask (s, w).
      left s (v2_handle_fs_event_with_mask path mask (s, w))
        (v2_handle_fs_event_with_mask-Replies s (nothing s) path mask s w (unclaimed s));
  priority = λ path (s, w).
      left s (handle_events_path path (s, w))
        (handle_events_path-Replies s (nothing s) path s w (unclaimed s));
  stale = λ path (s, w).
      left s (handle_stale_events_path path (s, w))
        (handle_stale_events_path-Replies s (nothing s) path s w (unclaimed s));
}
