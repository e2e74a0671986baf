-- ===== src/Foreground/CgroupV1.antt =====
-- services/foreground/cgroup_v1.rs: a source that reads the process list of the top-app control group.
pub mod Source
pub mod Answers
mod Examples
use core_shift_engine.Base.{
  ℕ, ◌-◌, ℤ, pos, Bool, true, false, not, ◌&&◌, ◌||◌, List, [], ◌∷◌, ◌++◌, Option, none, some,
  Result, ok, err, Act, Ord, ◌==◌, nat_ord, text_ord, int_ord, ltb_ℤ, leb, if◌then◌else◌, any,
  is_empty, reverse,
}
use core_shift_engine.Btree.Map.{BtreeMap}
use core_shift_engine.Btree.Map
use core_shift_engine.Btree.Set.{BtreeSet}
use core_shift_engine.Btree.Set
use core_shift_engine.Text.Chars.{Text, codes}
use core_shift_engine.Text.Split.{lines, split, split_whitespace, trim, contains_text}
use core_shift_engine.Text.Signed.{parse_i32}
use core_shift_engine.Text.Utf8.{from_utf8_lossy}
use core_shift_engine.Paths.{FilePath, path_ord}
use core_shift_engine.Host.{Host, IoError, invalid_data}
use core_shift_engine.Error.{EngineError, io}
use core_shift_engine.Foreground.Cache.{
  UidPackageCache, UidPackageState, exact, missing, ambiguous, uid_state,
}
use core_shift_engine.Foreground.Source.{
  ForegroundCandidate, ForegroundCandidateFilter, cgroup_v1, is_valid_uid, candidate_for_uid,
}
use core_shift_engine.Foreground.Resolver.{V1PayloadCache}

-- `trait PidUidResolver`, implemented by `R`.
abbrev pub PidUidResolver : Host → Type 0 → Type 0
PidUidResolver h R = FilePath → ℤ → Act (EngineError h) (R × h.World) (Option ℕ)

abbrev uid_found :
    {h : Host}
    → Result ℕ h.CoreError × h.World
    → Result (Option ℕ) (EngineError h) × (Unit {0} × h.World)
uid_found (ok uid, w) = (ok (some uid), (tt, w))
uid_found (err e, w) = (ok none, (tt, w))

-- `ProcfsPidUidResolver`: a process that cannot be looked at has no uid.
unfoldable pub procfs_uid_for_pid : (h : Host) → PidUidResolver h (Unit {0})
procfs_uid_for_pid h proc_root pid (r, w) = uid_found {h = h} (h.proc_stat_uid proc_root pid w)

-- `MapPidUidResolver`
unfoldable pub map_uid_for_pid : (h : Host) → PidUidResolver h (BtreeMap ℤ ℕ)
map_uid_for_pid h proc_root pid (uids, w) = (ok (Map.get uids pid), (uids, w))

pub record CgroupV1CpusetSource (R : Type 0) : Type 0 where
  pub cgroup_procs_path : FilePath
  pub proc_root : FilePath
  pub filter : ForegroundCandidateFilter
  pub watch_hint_paths : List FilePath
  pub resolver : R
  pub package_cache : Option UidPackageCache
  pub payload_cache : V1PayloadCache
  pub last_candidate : Option ForegroundCandidate

-- `with_resolver`
abbrev pub new_v1 :
    {R : Type 0} → FilePath → FilePath → ForegroundCandidateFilter → R → CgroupV1CpusetSource R
new_v1 cgroup_procs_path proc_root filter resolver = record {
  cgroup_procs_path = cgroup_procs_path;
  proc_root = proc_root;
  filter = filter;
  watch_hint_paths = cgroup_procs_path ∷ [];
  resolver = resolver;
  package_cache = none;
  payload_cache = record { last = none };
  last_candidate = none;
}

abbrev process_name : List Text → Option Text
process_name [] = none
process_name (word ∷ words) = first_piece (split b':' word)
  where
    first_piece : List Text → Option Text
    first_piece [] = none
    first_piece (piece ∷ pieces) =
        if not (is_empty piece)
          && contains_text (codes ".") piece
          && not (contains_text (codes "/") piece)
        then some piece
        else none

-- The package that a command line starts with.
unfoldable pub package_from_proc_cmdline : Text → Option Text
package_from_proc_cmdline cmdline = process_name (split_whitespace cmdline)

abbrev pub has_ui : Text → Bool
has_ui cmdline =
    contains_text (codes ":") cmdline
    && not (contains_text (codes "remote") cmdline)
    && not (contains_text (codes "service") cmdline)

-- Whether what the cache has for the uid speaks against the package.
abbrev pub contradicts : UidPackageState → Text → Bool
contradicts (exact cached) package_name = not (cached == package_name)
contradicts (ambiguous packages) package_name =
    not (any (λ cached. cached == package_name) packages)
contradicts missing package_name = false

abbrev pub cache_contradicts : Option UidPackageCache → ℕ → Text → Bool
cache_contradicts none uid package_name = false
cache_contradicts (some cache) uid package_name =
    leb 10000 uid && contradicts (uid_state cache uid) package_name

abbrev has_package : UidPackageState → Text → Bool
has_package (exact cached) package_name = cached == package_name
has_package (ambiguous packages) package_name = any (λ cached. cached == package_name) packages
has_package missing package_name = false

abbrev pub cache_uid_has_package : Option UidPackageCache → ℕ → Text → Bool
cache_uid_has_package none uid package_name = false
cache_uid_has_package (some cache) uid package_name = has_package (uid_state cache uid) package_name

abbrev first_word_counts : List Text → Bool
first_word_counts [] = false
first_word_counts (word ∷ words) = not (is_empty word)

abbrev not_a_package : (h : Host) → Result Text h.CoreError × h.World → Bool × h.World
not_a_package h (err e, w) = (false, w)
not_a_package h (ok cmdline, w) = (
  first_word_counts (split_whitespace cmdline) && no_package (package_from_proc_cmdline cmdline),
  w,
)
  where
    no_package : Option Text → Bool
    no_package none = true
    no_package (some p) = false

module _ {R : Type 0} where
  abbrev pub named_candidate :
      CgroupV1CpusetSource R → ℤ → ℕ → Bool → Option Text → Option (ForegroundCandidate × Bool)
  named_candidate s pid uid is_ui none = none
  named_candidate s pid uid is_ui (some package_name) =
      if Set.contains s.filter.blocked_packages package_name
      then none
      else if cache_contradicts s.package_cache uid package_name
      then none
      else some (
        record {
          source = cgroup_v1;
          pid = some pid;
          uid = some uid;
          package_name = some package_name;
          identity_resolved = true;
        },
        is_ui,
      )

  abbrev pub cmdline_info :
      (h : Host)
      → CgroupV1CpusetSource R
      → ℤ
      → ℕ
      → Result Text h.CoreError × h.World
      → Option (ForegroundCandidate × Bool) × h.World
  cmdline_info h s pid uid (err e, w) = (none, w)
  cmdline_info h s pid uid (ok cmdline, w) =
      (named_candidate s pid uid (has_ui cmdline) (package_from_proc_cmdline cmdline), w)

  unfoldable pub cmdline_info_for_pid :
      (h : Host)
      → CgroupV1CpusetSource R
      → ℤ
      → ℕ
      → h.World
      → Option (ForegroundCandidate × Bool) × h.World
  unfolding package_from_proc_cmdline
  cmdline_info_for_pid h s pid uid w =
      if not (is_valid_uid s.filter uid)
      then (none, w)
      else cmdline_info h s pid uid (h.read_proc_cmdline_at s.proc_root pid w)

  unfoldable pub termux_process_has_non_package_cmdline :
      (h : Host) → CgroupV1CpusetSource R → ℤ → ℕ → h.World → Bool × h.World
  unfolding package_from_proc_cmdline
  termux_process_has_non_package_cmdline h s pid uid w =
      if not (cache_uid_has_package s.package_cache uid (codes "com.termux"))
      then (false, w)
      else not_a_package h (h.read_proc_cmdline_at s.proc_root pid w)

-- The candidate of the filter, if it is resolved.
abbrev pub only_resolved : Option ForegroundCandidate → Option (ForegroundCandidate × Bool)
only_resolved none = none
only_resolved (some candidate) =
    if candidate.identity_resolved then some (candidate, false) else none

-- A process with its candidate, and whether it has a user interface.
pub record Scored : Type 0 where
  pub pid : ℤ
  pub candidate : ForegroundCandidate
  pub is_ui : Bool

abbrev pub is_better : Scored → Option Scored → Bool
is_better x none = true
is_better x (some best) =
    if x.is_ui && not best.is_ui
    then true
    else if not x.is_ui && best.is_ui
    then false
    else ltb_ℤ best.pid x.pid

unfoldable pub weigh : Option Scored → Scored → Option Scored
weigh best x = if is_better x best then some x else best
