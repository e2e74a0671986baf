-- ===== src/Foreground/CgroupV1/Source.antt =====
-- The methods of services/foreground/cgroup_v1.rs, and `impl ForegroundSource`.
use core_shift_engine.Base.{
  ℕ, ◌+◌, ℤ, pos, Bool, true, false, not, List, [], ◌∷◌, Option, none, some, Result, ok, err, ◌==◌,
  int_ord, ltb_ℤ, if◌then◌else◌, is_empty, reverse,
}
use core_shift_engine.Text.Chars.{Text, codes}
use core_shift_engine.Text.Split.{lines, trim}
use core_shift_engine.Text.Signed.{parse_i32}
use core_shift_engine.Text.Utf8.{from_utf8_lossy}
use core_shift_engine.Paths.{FilePath, path_ord}
use core_shift_engine.Host.{Host, IoError, invalid_data}
use core_shift_engine.Error.{EngineError, io}
use core_shift_engine.Foreground.Source.{
  ForegroundSource, ForegroundCandidate, cgroup_v1, candidate_for_uid,
}
use core_shift_engine.Foreground.Resolver.{V1PayloadCache, observe_payload}
use core_shift_engine.Foreground.CgroupV1.{
  PidUidResolver, CgroupV1CpusetSource, cmdline_info_for_pid,
  termux_process_has_non_package_cmdline, only_resolved, Scored, weigh,
}

-- `ForegroundSource::watch_hint_mask`: changes, and entries that come and go.
abbrev pub default_watch_hint_mask : ℕ
default_watch_hint_mask = 0x2 + 0x100 + 0x200 + 0x40 + 0x80

abbrev pub V1Answer : Host → Type 0 → Type 0 → Type 0
V1Answer h R A = Result A (EngineError h) × (CgroupV1CpusetSource R × h.World)

abbrev pub invalid_pid : {h : Host} → EngineError h
invalid_pid = io (record { kind = invalid_data; message = codes "invalid cgroup.procs pid list" })

abbrev pub scored : ℤ → Option (ForegroundCandidate × Bool) → Option Scored
scored pid none = none
scored pid (some (candidate, is_ui)) =
    some (record { pid = pid; candidate = candidate; is_ui = is_ui })

abbrev pub weigh_option : Option Scored → Option Scored → Option Scored
weigh_option best none = best
weigh_option best (some x) = weigh best x

module _ {h : Host} {R : Type 0} (uid_for_pid : PidUidResolver h R) where
  -- The candidate of a process: by its command line, or else by the cache.
  abbrev pub by_cache :
      CgroupV1CpusetSource R
      → ℤ
      → ℕ
      → Bool × h.World
      → Option (ForegroundCandidate × Bool) × h.World
  by_cache s pid uid (true, w) = (none, w)
  by_cache s pid uid (false, w) =
      (only_resolved (candidate_for_uid s.filter cgroup_v1 (some pid) uid s.package_cache), w)

  abbrev pub or_by_cache :
      CgroupV1CpusetSource R
      → ℤ
      → ℕ
      → Option (ForegroundCandidate × Bool) × h.World
      → Option (ForegroundCandidate × Bool) × h.World
  or_by_cache s pid uid (some found, w) = (some found, w)
  or_by_cache s pid uid (none, w) =
      by_cache s pid uid (termux_process_has_non_package_cmdline h s pid uid w)

  abbrev pub of_process :
      CgroupV1CpusetSource R → ℤ → ℕ → h.World → Option (ForegroundCandidate × Bool) × h.World
  of_process s pid uid w = or_by_cache s pid uid (cmdline_info_for_pid h s pid uid w)

  abbrev pub weighed :
      ℤ
      → Option Scored
      → (Option Scored → CgroupV1CpusetSource R × h.World → V1Answer h R (Option Scored))
      → CgroupV1CpusetSource R
      → Result (Option ℕ) (EngineError h) × (R × h.World)
      → V1Answer h R (Option Scored)
  weighed pid best rest s (err e, (r, w)) = (err e, (record s { resolver = r }, w))
  weighed pid best rest s (ok none, (r, w)) = rest best (record s { resolver = r }, w)
  weighed pid best rest s (ok (some uid), (r, w)) =
      let s' : CgroupV1CpusetSource R = record s { resolver = r } in
      let (found, w') = of_process s' pid uid w in
      rest (weigh_option best (scored pid found)) (s', w')

  abbrev pub pid_line :
      Option ℤ
      → Option Scored
      → (Option Scored → CgroupV1CpusetSource R × h.World → V1Answer h R (Option Scored))
      → CgroupV1CpusetSource R
      → h.World
      → V1Answer h R (Option Scored)
  pid_line none best rest s w = (err invalid_pid, (s, w))
  pid_line (some pid) best rest s w =
      if ltb_ℤ pid (pos 100)
      then rest best (s, w)
      else weighed pid best rest s (uid_for_pid s.proc_root pid (s.resolver, w))

  -- The lines from the last to the first.
  unfoldable pub best_of :
      List Text → Option Scored → CgroupV1CpusetSource R × h.World → V1Answer h R (Option Scored)
  best_of [] best t = (ok best, t)
  best_of (line ∷ ls) best (s, w) =
      if is_empty (trim line)
      then best_of ls best (s, w)
      else pid_line (parse_i32 (trim line)) best (best_of ls) s w

  abbrev pub kept_best : V1Answer h R (Option Scored) → V1Answer h R (Option ForegroundCandidate)
  kept_best (err e, t) = (err e, t)
  kept_best (ok none, (s, w)) = (ok none, (record s { last_candidate = none }, w))
  kept_best (ok (some best), (s, w)) =
      (ok (some best.candidate), (record s { last_candidate = some best.candidate }, w))

  unfoldable pub resolve_payload :
      List ℕ → CgroupV1CpusetSource R × h.World → V1Answer h R (Option ForegroundCandidate)
  unfolding best_of
  resolve_payload payload t = kept_best (best_of (reverse (lines (from_utf8_lossy payload))) none t)

  abbrev pub read_first :
      CgroupV1CpusetSource R
      → Result (List ℕ) IoError × h.World
      → V1Answer h R (Option ForegroundCandidate)
  read_first s (err e, w) = (err (io e), (s, w))
  read_first s (ok payload, w) =
      resolve_payload payload (record s { payload_cache = record { last = some payload } }, w)

  unfoldable pub v1_poll_current :
      CgroupV1CpusetSource R × h.World → V1Answer h R (Option ForegroundCandidate)
  unfolding resolve_payload
  v1_poll_current (s, w) = read_first s (h.read s.cgroup_procs_path w)

  -- The payload that is new, or the last one.
  abbrev pub current_payload : Option (List ℕ) × V1PayloadCache → List ℕ
  current_payload (some payload, cache) = payload
  current_payload (none, cache) = or_empty cache.last
    where
      or_empty : Option (List ℕ) → List ℕ
      or_empty none = []
      or_empty (some payload) = payload

  abbrev pub read_again :
      CgroupV1CpusetSource R
      → Result (List ℕ) IoError × h.World
      → V1Answer h R (Option ForegroundCandidate)
  read_again s (err e, w) = (err (io e), (s, w))
  read_again s (ok payload, w) =
      let seen = observe_payload s.payload_cache payload in
      resolve_payload (current_payload seen) (record s { payload_cache = seen.1 }, w)

  unfoldable pub v1_handle_fs_event :
      FilePath → CgroupV1CpusetSource R × h.World → V1Answer h R (Option ForegroundCandidate)
  unfolding resolve_payload
  v1_handle_fs_event path (s, w) =
      if not (path == s.cgroup_procs_path)
      then (ok none, (s, w))
      else read_again s (h.read s.cgroup_procs_path w)

  abbrev opens : {A : Type 0} → Result A IoError × h.World → Bool
  opens (ok fd, w) = true
  opens (err e, w) = false

  -- `impl ForegroundSource for CgroupV1CpusetSource`, with the bodies that the trait gives by default.
  unfoldable pub v1_source : ForegroundSource h (CgroupV1CpusetSource R)
  unfolding v1_poll_current v1_handle_fs_event
  v1_source = record {
    kind = λ s. cgroup_v1;
    poll_current = v1_poll_current;
    handle_fs_event_with_mask = λ path mask. v1_handle_fs_event path;
    watch_hint_paths = λ s. s.watch_hint_paths;
    is_available = λ s w. opens (h.open_file s.cgroup_procs_path w);
    watch_hint_mask = λ s path. default_watch_hint_mask;
    register_priority_fds = λ s registered w. (ok [], w);
    priority_hint_paths = λ s. [];
    priority_hint_keys = λ s. [];
    handle_priority_event = λ path t. (ok none, t);
    handle_stale_priority_event = λ path t. (ok none, t);
    unregister_priority_fd = λ s path w. (ok false, w);
  }
