-- ===== src/Foreground/CgroupV2/Polls.antt =====
-- What a poll of the source answers.
use core_shift_engine.Base.{
  ℕ, ◌≡◌, refl, List, [], ◌∷◌, Option, none, some, Result, ok, err, if_both, nat_ord, text_ord,
}
use core_shift_engine.Btree.Map.{BtreeMap, Among-get, insert-Each, remove-Each}
use core_shift_engine.Btree.Map
use core_shift_engine.Paths.{FilePath, path_ord}
use core_shift_engine.Host.{Host}
use core_shift_engine.Error.{EngineError}
use core_shift_engine.Foreground.Source.{ForegroundCandidate}
use core_shift_engine.Foreground.CgroupV2.Parse.{CgroupV2Populated, active, inactive, unknown}
use core_shift_engine.Foreground.CgroupV2.{
  UidWatch, CgroupV2EventsSource, V2Answer, remove_events_path, rescan_roots, v2_candidate_for_uid,
  mark_populated,
}
use core_shift_engine.Btree.Map.{keys}
use core_shift_engine.Foreground.CgroupV2.{read_cgroup_events_populated}
use core_shift_engine.Foreground.CgroupV2.Source.{
  is_not_found, first_candidate, polled_state, polled_watch, poll_paths, v2_poll_current,
}
use core_shift_engine.Foreground.CgroupV2.Watching.{
  Claim, IsWatching, remove_events_path-IsWatching, rescan_roots-IsWatching, get-Q,
  mark_populated-IsWatching,
}
use core_shift_engine.Foreground.CgroupV2.Replies.{MaybeNames, Replies, v2_candidate_for_uid-Names}

module _ {h : Host} (c : CgroupV2EventsSource h) (k : Claim c) where
  first_candidate-Replies :
      (rest : CgroupV2EventsSource h × h.World → V2Answer h) (s : CgroupV2EventsSource h)
      (w : h.World) (o : Option ForegroundCandidate)
      → ((t : CgroupV2EventsSource h) (w : h.World) → IsWatching c k t → Replies c k (rest (t, w)))
      → IsWatching c k s
      → MaybeNames c k o
      → Replies c k (first_candidate rest (s, w) o)
  first_candidate-Replies rest s w none f i n = f s w i
  first_candidate-Replies rest s w (some candidate) f i n = (n, i)

  polled_state-Replies :
      (rest : CgroupV2EventsSource h × h.World → V2Answer h) (path : FilePath) (uid : ℕ)
      (s : CgroupV2EventsSource h) (r : Result CgroupV2Populated (EngineError h) × h.World)
      → ((t : CgroupV2EventsSource h) (w : h.World) → IsWatching c k t → Replies c k (rest (t, w)))
      → k.R uid
      → IsWatching c k s
      → Replies c k (polled_state rest path uid s r)
  polled_state-Replies rest path uid s (ok active, w) f p i =
      let j = mark_populated-IsWatching c k s path active i in
      let t = mark_populated s path active in
      first_candidate-Replies rest t w (v2_candidate_for_uid t uid) f j
        (v2_candidate_for_uid-Names c k t uid j p)
  polled_state-Replies rest path uid s (ok inactive, w) f p i =
      f (mark_populated s path inactive) w (mark_populated-IsWatching c k s path inactive i)
  polled_state-Replies rest path uid s (ok unknown, w) f p i =
      f (mark_populated s path unknown) w (mark_populated-IsWatching c k s path unknown i)
  polled_state-Replies rest path uid s (err e, w) f p i =
      let t = rescan_roots ((remove_events_path path s).1, w) in
      if_both (Replies c k) (is_not_found e)
        (f t.0 t.1 (
          rescan_roots-IsWatching c k (remove_events_path path s).1 w
            (remove_events_path-IsWatching c k path s i)))
        i

  polled_watch-Replies :
      (rest : CgroupV2EventsSource h × h.World → V2Answer h) (path : FilePath)
      (s : CgroupV2EventsSource h) (w : h.World) (o : Option (UidWatch h))
      → ((t : CgroupV2EventsSource h) (w : h.World) → IsWatching c k t → Replies c k (rest (t, w)))
      → Map.get s.watches path ≡ o
      → IsWatching c k s
      → Replies c k (polled_watch rest path s w o)
  polled_watch-Replies rest path s w none f e i = f s w i
  polled_watch-Replies rest path s w (some watch) f e i =
      polled_state-Replies rest path watch.uid s (read_cgroup_events_populated watch.events_path w)
        f (k.uid_of path watch (get-Q c k s path watch i e)) i

  poll_paths-Replies :
      (paths : List FilePath) (s : CgroupV2EventsSource h) (w : h.World)
      → IsWatching c k s
      → Replies c k (poll_paths paths (s, w))
  unfolding poll_paths
  poll_paths-Replies [] s w i = (tt, i)
  poll_paths-Replies (path ∷ paths) s w i =
      polled_watch-Replies (poll_paths paths) path s w (Map.get s.watches path)
        (poll_paths-Replies paths) refl i

  pub v2_poll_current-Replies :
      (s : CgroupV2EventsSource h) (w : h.World)
      → IsWatching c k s
      → Replies c k (v2_poll_current (s, w))
  unfolding v2_poll_current
  v2_poll_current-Replies s w i = poll_paths-Replies (keys s.watches) s w i
