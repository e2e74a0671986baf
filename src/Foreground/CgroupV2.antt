-- ===== src/Foreground/CgroupV2.antt =====
-- services/foreground/cgroup_v2.rs: a source that watches the control group of each uid.
pub mod Parse
pub mod Buffer
pub mod Events
pub mod Source
pub mod Watching
pub mod Replies
pub mod Polls
pub mod Contract
pub mod Names
pub mod Filling
mod Examples
use core_shift_engine.Base.{
  ℕ, zero, suc, ◌+◌, ◌-◌, Bool, true, false, not, ◌&&◌, ◌||◌, List, [], ◌∷◌, ◌++◌, Option, none,
  some, Result, ok, err, Act, and_then, Ord, ◌==◌, nat_ord, text_ord, if◌then◌else◌, keep, any,
  is_some, is_empty, map, length,
}
use Prim.Native.Nat.{bit_and}
use core_shift_engine.Btree.Map.{BtreeMap, keys}
use core_shift_engine.Btree.Map
use core_shift_engine.Btree.Set.{BtreeSet}
use core_shift_engine.Btree.Set
use core_shift_engine.Text.Chars.{Text, codes}
use core_shift_engine.Paths.{FilePath, path_ord, parent, join_name}
use core_shift_engine.Host.{Host, IoError, IoErrorKind, not_found}
use core_shift_engine.Error.{EngineError, core, io}
use core_shift_engine.Foreground.Cache.{
  UidPackageCache, UidPackageState, exact, missing, ambiguous, uid_state,
}
use core_shift_engine.State.{saturating_add}
use core_shift_engine.Foreground.Source.{
  ForegroundSource, ForegroundSourceKind, ForegroundCandidate, ForegroundCandidateFilter, cgroup_v2,
  is_valid_uid,
}
use core_shift_engine.Foreground.CgroupV2.Parse.{
  CgroupV2Populated, active, inactive, unknown, parse_cgroup_events_populated, parse_uid_dir_name,
}

abbrev pub events_name : Text
events_name = codes "cgroup.events"

-- A descriptor that is dropped is closed; the model leaves that out.
pub record UidWatch (h : Host) : Type 0 where
  pub uid : ℕ
  pub events_path : FilePath
  pub events_fd : h.Fd
  pub generation : ℕ
  pub populated : CgroupV2Populated

pub record CgroupV2EventsSource (h : Host) : Type 0 where
  pub roots : List FilePath
  pub filter : ForegroundCandidateFilter
  pub watch_hint_paths : List FilePath
  pub watches : BtreeMap FilePath (UidWatch h)
  pub package_cache : Option UidPackageCache
  pub stale_roots : BtreeSet FilePath
  pub next_watch_generation : ℕ

abbrev pub holds : List FilePath → FilePath → Bool
holds paths path = any (λ root. root == path) paths

abbrev is_parent : Option FilePath → FilePath → Bool
is_parent none root = false
is_parent (some p) root = p == root

abbrev pub has_parent : List FilePath → FilePath → Bool
has_parent roots path = any (is_parent (parent path)) roots

abbrev pub V2Answer : Host → Type 0
V2Answer h =
    Result (Option ForegroundCandidate) (EngineError h) × (CgroupV2EventsSource h × h.World)

module _ {h : Host} where
  abbrev wrapped : Result h.Fd h.CoreError × h.World → Result h.Fd (EngineError h) × h.World
  wrapped (ok fd, w) = (ok fd, w)
  wrapped (err e, w) = (err (core e), w)

  abbrev opened : Result h.Fd IoError × h.World → Result h.Fd (EngineError h) × h.World
  opened (ok raw_fd, w) = wrapped (h.from_owned_raw_fd raw_fd w)
  opened (err e, w) = (err (io e), w)

  unfoldable pub open_cgroup_events_fd : FilePath → Act (EngineError h) h.World h.Fd
  open_cgroup_events_fd path w = opened (h.open_file path w)

  abbrev parsed :
      Result (List ℕ) IoError × h.World → Result CgroupV2Populated (EngineError h) × h.World
  parsed (ok content, w) = (ok (parse_cgroup_events_populated content), w)
  parsed (err e, w) = (err (io e), w)

  unfoldable pub read_cgroup_events_populated :
      FilePath → Act (EngineError h) h.World CgroupV2Populated
  read_cgroup_events_populated path w = parsed (h.read path w)

  abbrev pub added_watch :
      CgroupV2EventsSource h
      → FilePath
      → ℕ
      → Result h.Fd (EngineError h) × h.World
      → Bool × (CgroupV2EventsSource h × h.World)
  added_watch s events_path uid (err e, w) = (false, (s, w))
  added_watch s events_path uid (ok fd, w) = (
    true,
    (
      record s {
        next_watch_generation = saturating_add s.next_watch_generation 1;
        watches = Map.insert s.watches events_path (record {
          uid = uid;
          events_path = events_path;
          events_fd = fd;
          generation = s.next_watch_generation;
          populated = unknown;
        });
      },
      w,
    ),
  )

  unfoldable pub add_uid_watch :
      FilePath → ℕ → CgroupV2EventsSource h × h.World → Bool × (CgroupV2EventsSource h × h.World)
  add_uid_watch uid_dir uid (s, w) =
      let events_path = join_name uid_dir events_name in
      if not (is_valid_uid s.filter uid)
      then (false, (s, w))
      else if Map.contains_key s.watches events_path
      then (false, (s, w))
      else added_watch s events_path uid (open_cgroup_events_fd events_path w)

  abbrev pub scan_uid :
      FilePath → Option ℕ → CgroupV2EventsSource h × h.World → CgroupV2EventsSource h × h.World
  scan_uid uid_dir none t = t
  scan_uid uid_dir (some uid) t = (add_uid_watch uid_dir uid t).1

  unfoldable pub scan_entries :
      List FilePath → CgroupV2EventsSource h × h.World → CgroupV2EventsSource h × h.World
  unfolding add_uid_watch
  scan_entries [] t = t
  scan_entries (uid_dir ∷ entries) (s, w) = scan_entries entries (
      if not (h.is_dir uid_dir w)
      then (s, w)
      else scan_uid uid_dir (parse_uid_dir_name uid_dir) (s, w))

  abbrev pub scan_root :
      CgroupV2EventsSource h
      → Result (List FilePath) IoError × h.World
      → CgroupV2EventsSource h × h.World
  scan_root s (ok entries, w) = scan_entries entries (s, w)
  scan_root s (err e, w) = (s, w)

  unfoldable pub scan_each :
      List FilePath → CgroupV2EventsSource h × h.World → CgroupV2EventsSource h × h.World
  unfolding scan_entries
  scan_each [] t = t
  scan_each (root ∷ roots) (s, w) = scan_each roots (scan_root s (h.read_dir root w))

  unfoldable pub scan_roots : CgroupV2EventsSource h × h.World → CgroupV2EventsSource h × h.World
  unfolding scan_each
  scan_roots (s, w) = scan_each s.roots (s, w)

  -- `CgroupV2EventsSource::new`
  abbrev pub bare_v2 : List FilePath → ForegroundCandidateFilter → CgroupV2EventsSource h
  bare_v2 roots filter = record {
    roots = roots;
    filter = filter;
    watch_hint_paths = roots;
    watches = [];
    package_cache = none;
    stale_roots = [];
    next_watch_generation = 1;
  }

  unfoldable pub new_v2 :
      List FilePath → ForegroundCandidateFilter → h.World → CgroupV2EventsSource h × h.World
  unfolding scan_roots
  new_v2 roots filter w = scan_roots (bare_v2 roots filter, w)

  -- The entries are looked at with the world in which the directory was listed.
  abbrev is_usable : CgroupV2EventsSource h → h.World → FilePath → Option ℕ → Bool
  is_usable s w uid_dir none = false
  is_usable s w uid_dir (some uid) =
      is_valid_uid s.filter uid && h.is_file (join_name uid_dir events_name) w

  abbrev any_usable : CgroupV2EventsSource h → Result (List FilePath) IoError × h.World → Bool
  any_usable s (err e, w) = false
  any_usable s (ok entries, w) =
      any (λ uid_dir. h.is_dir uid_dir w && is_usable s w uid_dir (parse_uid_dir_name uid_dir))
        entries

  unfoldable pub root_has_usable_layout : CgroupV2EventsSource h → h.World → FilePath → Bool
  root_has_usable_layout s w root =
      if Set.contains s.stale_roots root || not (h.is_dir root w)
      then false
      else any_usable s (h.read_dir root w)

  unfoldable pub v2_is_available : CgroupV2EventsSource h → h.World → Bool
  unfolding root_has_usable_layout
  v2_is_available s w = not (is_empty s.watches) || any (root_has_usable_layout s w) s.roots

  abbrev has_uid : Option (UidWatch h) → ℕ → Bool
  has_uid none uid = false
  has_uid (some watch) uid = watch.uid == uid

  unfoldable pub remove_uid_watch_path :
      FilePath → ℕ → CgroupV2EventsSource h → Bool × CgroupV2EventsSource h
  remove_uid_watch_path path uid s =
      if has_uid (Map.get s.watches path) uid
      then (true, record s { watches = Map.remove s.watches path })
      else (false, s)

  -- `remove_watch_path`
  unfoldable pub remove_events_path :
      FilePath → CgroupV2EventsSource h → Bool × CgroupV2EventsSource h
  remove_events_path path s =
      (Map.contains_key s.watches path, record s { watches = Map.remove s.watches path })

  -- The watches whose file is gone.
  abbrev pub vanished : CgroupV2EventsSource h → h.World → List (FilePath × UidWatch h)
  vanished s w = keep (λ e. not (h.exists e.0 w)) s.watches

  unfoldable pub remove_each :
      List (FilePath × UidWatch h) → CgroupV2EventsSource h → CgroupV2EventsSource h
  unfolding remove_uid_watch_path
  remove_each [] s = s
  remove_each ((path, watch) ∷ rest) s = remove_each rest (remove_uid_watch_path path watch.uid s).1

  unfoldable pub rescan_roots : CgroupV2EventsSource h × h.World → CgroupV2EventsSource h × h.World
  unfolding remove_each scan_roots
  rescan_roots (s, w) = scan_roots (remove_each (vanished s w) s, w)

  abbrev exact_candidate : CgroupV2EventsSource h → ℕ → UidPackageState → Option ForegroundCandidate
  exact_candidate s uid (exact p) =
      if Set.contains s.filter.blocked_packages p
      then none
      else some (record {
        source = cgroup_v2;
        pid = none;
        uid = some uid;
        package_name = some p;
        identity_resolved = true;
      })
  exact_candidate s uid missing = none
  exact_candidate s uid (ambiguous ps) = none

  -- `CgroupV2EventsSource::candidate_for_uid`
  unfoldable pub v2_candidate_for_uid : CgroupV2EventsSource h → ℕ → Option ForegroundCandidate
  v2_candidate_for_uid s uid = elim s.package_cache [
    | none ↦ none
    | some cache ↦ exact_candidate s uid (uid_state cache uid)
  ]

  -- The state of a watch, written where the path is watched.
  abbrev set_populated :
      CgroupV2EventsSource h
      → FilePath
      → CgroupV2Populated
      → Option (UidWatch h)
      → CgroupV2EventsSource h
  set_populated s path populated none = s
  set_populated s path populated (some watch) = record s {
    watches = Map.insert s.watches path (record watch { populated = populated });
  }

  abbrev pub mark_populated :
      CgroupV2EventsSource h → FilePath → CgroupV2Populated → CgroupV2EventsSource h
  mark_populated s path populated = set_populated s path populated (Map.get s.watches path)

  -- Only an active control group has a candidate, whatever the state before was.
  abbrev populated_candidate :
      CgroupV2EventsSource h → ℕ → CgroupV2Populated → Option ForegroundCandidate
  populated_candidate s uid active = v2_candidate_for_uid s uid
  populated_candidate s uid inactive = none
  populated_candidate s uid unknown = none

  unfoldable pub handle_uid_populated_at :
      FilePath → ℕ → CgroupV2Populated → CgroupV2EventsSource h × h.World → V2Answer h
  unfolding v2_candidate_for_uid
  handle_uid_populated_at path uid populated (s, w) =
      if not (Map.contains_key s.watches path)
      then (ok none, (s, w))
      else (let s' = mark_populated s path populated in
          (ok (populated_candidate s' uid populated), (s', w)))

  unfoldable pub handle_stale_events_path : FilePath → CgroupV2EventsSource h × h.World → V2Answer h
  unfolding remove_events_path rescan_roots
  handle_stale_events_path path (s, w) = (ok none, rescan_roots ((remove_events_path path s).1, w))
