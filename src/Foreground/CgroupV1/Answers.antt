-- ===== src/Foreground/CgroupV1/Answers.antt =====
-- What the source answers, and what it keeps.
use core_shift_engine.Base.{
  ℕ, ℤ, pos, ◌≡◌, refl, subst, Bool, true, false, not, List, [], ◌∷◌, Option, none, some, Result,
  ok, err, Bool-cases, inl, inr, if_both, text_ord, ltb_ℤ, is_empty, reverse, ◌==◌,
}
use core_shift_engine.Btree.Set
use core_shift_engine.Text.Chars.{Text}
use core_shift_engine.Text.Split.{lines, trim}
use core_shift_engine.Text.Signed.{parse_i32}
use core_shift_engine.Text.Utf8.{from_utf8_lossy}
use core_shift_engine.Paths.{FilePath, path_ord}
use core_shift_engine.Host.{Host, IoError}
use core_shift_engine.Error.{EngineError}
use core_shift_engine.Foreground.Cache.{
  UidPackageCache, UidPackageState, exact, missing, ambiguous, uid_state,
}
use core_shift_engine.Foreground.Source.{
  ForegroundCandidate, ForegroundCandidateFilter, cgroup_v1, is_valid_uid, candidate_for_uid,
  identify,
}
use core_shift_engine.Foreground.Auto.Hints.{KeepsHints}
use core_shift_engine.Foreground.Resolver.{V1PayloadCache, observe_payload}
use core_shift_engine.Foreground.CgroupV1.{
  PidUidResolver, CgroupV1CpusetSource, cmdline_info, cmdline_info_for_pid, named_candidate,
  cache_contradicts, has_ui, package_from_proc_cmdline, termux_process_has_non_package_cmdline,
  only_resolved, Scored, is_better, weigh,
}
use core_shift_engine.Foreground.CgroupV1.Source.{
  V1Answer, scored, weigh_option, by_cache, or_by_cache, of_process, weighed, pid_line, best_of,
  kept_best, resolve_payload, read_first, v1_poll_current, current_payload, read_again,
  v1_handle_fs_event, v1_source,
}

-- The candidate of a process: its uid is one that the filter takes, its package is not blocked, and
-- its identity is resolved.
pub record IsProper (filter : ForegroundCandidateFilter) (pid : ℤ) (candidate : ForegroundCandidate)
    : Type 0 where
  pub uid : ℕ
  pub package_name : Text
  pub valid : is_valid_uid filter uid ≡ true
  pub allowed : Set.contains filter.blocked_packages package_name ≡ false
  pub same : candidate ≡ record {
    source = cgroup_v1;
    pid = some pid;
    uid = some uid;
    package_name = some package_name;
    identity_resolved = true;
  }

abbrev MaybeFound : ForegroundCandidateFilter → ℤ → Option (ForegroundCandidate × Bool) → Type 0
MaybeFound f pid none = Unit
MaybeFound f pid (some (candidate, is_ui)) = IsProper f pid candidate

abbrev MaybeBest : ForegroundCandidateFilter → Option Scored → Type 0
MaybeBest f none = Unit
MaybeBest f (some x) = (ltb_ℤ x.pid (pos 100) ≡ false) × IsProper f x.pid x.candidate

only_resolved-Found :
    (f : ForegroundCandidateFilter) (pid : ℤ) (uid : ℕ) (cache : Option UidPackageCache)
    → MaybeFound f pid (only_resolved (candidate_for_uid f cgroup_v1 (some pid) uid cache))
unfolding candidate_for_uid
only_resolved-Found f pid uid cache = elim (Bool-cases (is_valid_uid f uid)) [
  | inl valid ↦ rw valid (by_option cache valid)
  | inr invalid ↦ rw invalid tt
]
  where
    unresolved : ForegroundCandidate
    unresolved = record {
      source = cgroup_v1;
      pid = some pid;
      uid = some uid;
      package_name = none;
      identity_resolved = false;
    }

    by_state :
        (state : UidPackageState)
        → is_valid_uid f uid ≡ true
        → MaybeFound f pid (only_resolved (identify f unresolved state))
    by_state missing v = tt
    by_state (ambiguous ps) v = tt
    by_state (exact p) v = elim (Bool-cases (Set.contains f.blocked_packages p)) [
      | inl blocked ↦ rw blocked tt
      | inr allowed ↦
          rw allowed
            (record { uid = uid; package_name = p; valid = v; allowed = allowed; same = refl })
    ]

    by_option :
        (o : Option UidPackageCache)
        → is_valid_uid f uid ≡ true
        → MaybeFound f pid (
            only_resolved (elim o as (λ x. Option ForegroundCandidate) [
              | none ↦ some unresolved
              | some c ↦ identify f unresolved (uid_state c uid)
            ]))
    by_option none v = tt
    by_option (some c) v = by_state (uid_state c uid) v

module _ {R : Type 0} where
  named_candidate-Found :
      (s : CgroupV1CpusetSource R) (pid : ℤ) (uid : ℕ) (is_ui : Bool) (o : Option Text)
      → is_valid_uid s.filter uid ≡ true
      → MaybeFound s.filter pid (named_candidate s pid uid is_ui o)
  named_candidate-Found s pid uid is_ui none v = tt
  named_candidate-Found s pid uid is_ui (some p) v =
      elim (Bool-cases (Set.contains s.filter.blocked_packages p)) [
        | inl blocked ↦ rw blocked tt
        | inr allowed ↦ rw allowed (
            if_both (MaybeFound s.filter pid) (cache_contradicts s.package_cache uid p) tt
              (record { uid = uid; package_name = p; valid = v; allowed = allowed; same = refl }))
      ]

  cmdline_info_for_pid-Found :
      (h : Host) (s : CgroupV1CpusetSource R) (pid : ℤ) (uid : ℕ) (w : h.World)
      → MaybeFound s.filter pid (cmdline_info_for_pid h s pid uid w).0
  unfolding cmdline_info_for_pid
  cmdline_info_for_pid-Found h s pid uid w = elim (Bool-cases (is_valid_uid s.filter uid)) [
    | inl valid ↦ rw valid (by_cmdline (h.read_proc_cmdline_at s.proc_root pid w) valid)
    | inr invalid ↦ rw invalid tt
  ]
    where
      by_cmdline :
          (r : Result Text h.CoreError × h.World)
          → is_valid_uid s.filter uid ≡ true
          → MaybeFound s.filter pid (cmdline_info h s pid uid r).0
      by_cmdline (err e, w') v = tt
      by_cmdline (ok cmdline, w') v =
          named_candidate-Found s pid uid (has_ui cmdline) (package_from_proc_cmdline cmdline) v

-- The configuration is that of `c`.
pub record IsConfigured {R : Type 0} (c s : CgroupV1CpusetSource R) : Type 0 where
  pub same_hints : s.watch_hint_paths ≡ c.watch_hint_paths
  pub same_filter : s.filter ≡ c.filter
  pub same_cache : s.package_cache ≡ c.package_cache

module _ {h : Host} {R : Type 0} (uid_for_pid : PidUidResolver h R)
    (c : CgroupV1CpusetSource R) where
  of_process-Found :
      (s : CgroupV1CpusetSource R) (pid : ℤ) (uid : ℕ) (w : h.World)
      → MaybeFound s.filter pid (of_process uid_for_pid s pid uid w).0
  of_process-Found s pid uid w =
      first (cmdline_info_for_pid h s pid uid w) (cmdline_info_for_pid-Found h s pid uid w)
    where
      second : (r : Bool × h.World) → MaybeFound s.filter pid (by_cache uid_for_pid s pid uid r).0
      second (true, w') = tt
      second (false, w') = only_resolved-Found s.filter pid uid s.package_cache

      first :
          (r : Option (ForegroundCandidate × Bool) × h.World)
          → MaybeFound s.filter pid r.0
          → MaybeFound s.filter pid (or_by_cache uid_for_pid s pid uid r).0
      first (some found, w') m = m
      first (none, w') m = second (termux_process_has_non_package_cmdline h s pid uid w')

  abbrev Bests : V1Answer h R (Option Scored) → Type 0
  Bests (ok best, (s, w)) = MaybeBest c.filter best × IsConfigured c s
  Bests (err e, (s, w)) = IsConfigured c s

  abbrev pub Answers : V1Answer h R (Option ForegroundCandidate) → Type 0
  Answers (ok none, (s, w)) = IsConfigured c s
  Answers (ok (some candidate), (s, w)) =
      IsConfigured c s
      × ((pid : ℤ) × (ltb_ℤ pid (pos 100) ≡ false) × IsProper c.filter pid candidate)
  Answers (err e, (s, w)) = IsConfigured c s

  weigh_option-Best :
      (pid : ℤ) (best : Option Scored) (o : Option (ForegroundCandidate × Bool))
      → ltb_ℤ pid (pos 100) ≡ false
      → MaybeBest c.filter best
      → MaybeFound c.filter pid o
      → MaybeBest c.filter (weigh_option best (scored pid o))
  unfolding weigh
  weigh_option-Best pid best none above b m = b
  weigh_option-Best pid best (some (candidate, is_ui)) above b m =
      if_both (MaybeBest c.filter)
        (is_better (record { pid = pid; candidate = candidate; is_ui = is_ui }) best) (above, m) b

  with_resolver :
      (s : CgroupV1CpusetSource R) (r : R)
      → IsConfigured c s
      → IsConfigured c (record s { resolver = r })
  with_resolver s r i = record {
    same_hints = i.same_hints;
    same_filter = i.same_filter;
    same_cache = i.same_cache;
  }

  weighed-Bests :
      (pid : ℤ) (best : Option Scored)
      (rest : Option Scored → CgroupV1CpusetSource R × h.World → V1Answer h R (Option Scored))
      (s : CgroupV1CpusetSource R) (r : Result (Option ℕ) (EngineError h) × (R × h.World))
      → ltb_ℤ pid (pos 100) ≡ false
      → ((b : Option Scored) (t : CgroupV1CpusetSource R) (w : h.World)
          → MaybeBest c.filter b
          → IsConfigured c t
          → Bests (rest b (t, w)))
      → MaybeBest c.filter best
      → IsConfigured c s
      → Bests (weighed uid_for_pid pid best rest s r)
  weighed-Bests pid best rest s (err e, (r, w)) above f b i = with_resolver s r i
  weighed-Bests pid best rest s (ok none, (r, w)) above f b i =
      f best (record s { resolver = r }) w b (with_resolver s r i)
  weighed-Bests pid best rest s (ok (some uid), (r, w)) above f b i =
      let s' : CgroupV1CpusetSource R = record s { resolver = r } in
      let found = of_process uid_for_pid s' pid uid w in
      f (weigh_option best (scored pid found.0)) s' found.1
        (weigh_option-Best pid best found.0 above b (
          subst (λ f. MaybeFound f pid (of_process uid_for_pid s' pid uid w).0) i.same_filter
            (of_process-Found s' pid uid w)))
        (with_resolver s r i)

  best_of-Bests :
      (ls : List Text) (best : Option Scored) (s : CgroupV1CpusetSource R) (w : h.World)
      → MaybeBest c.filter best
      → IsConfigured c s
      → Bests (best_of uid_for_pid ls best (s, w))
  unfolding best_of
  best_of-Bests [] best s w b i = (b, i)
  best_of-Bests (line ∷ ls) best s w b i =
      if_both Bests (is_empty (trim line)) (best_of-Bests ls best s w b i)
        (by_pid (parse_i32 (trim line)) (best_of uid_for_pid ls) (best_of-Bests ls))
    where
      by_pid :
          (o : Option ℤ)
          (rest : Option Scored → CgroupV1CpusetSource R × h.World → V1Answer h R (Option Scored))
          → ((b : Option Scored) (t : CgroupV1CpusetSource R) (w : h.World)
              → MaybeBest c.filter b
              → IsConfigured c t
              → Bests (rest b (t, w)))
          → Bests (pid_line uid_for_pid o best rest s w)
      by_pid none rest f = i
      by_pid (some pid) rest f = elim (Bool-cases (ltb_ℤ pid (pos 100))) [
        | inl low ↦ rw low (f best s w b i)
        | inr above ↦ rw above (
            weighed-Bests pid best rest s (uid_for_pid s.proc_root pid (s.resolver, w)) above f b i)
      ]

  kept_best-Answers :
      (r : V1Answer h R (Option Scored)) → Bests r → Answers (kept_best uid_for_pid r)
  kept_best-Answers (err e, (s, w)) b = b
  kept_best-Answers (ok none, (s, w)) b = record {
    same_hints = b.1.same_hints;
    same_filter = b.1.same_filter;
    same_cache = b.1.same_cache;
  }
  kept_best-Answers (ok (some x), (s, w)) b = (
    record {
      same_hints = b.1.same_hints;
      same_filter = b.1.same_filter;
      same_cache = b.1.same_cache;
    },
    (x.pid, b.0.0, b.0.1),
  )

  resolve_payload-Answers :
      (payload : List ℕ) (s : CgroupV1CpusetSource R) (w : h.World)
      → IsConfigured c s
      → Answers (resolve_payload uid_for_pid payload (s, w))
  unfolding resolve_payload
  resolve_payload-Answers payload s w i =
      kept_best-Answers _ (best_of-Bests (reverse (lines (from_utf8_lossy payload))) none s w tt i)

  with_payloads :
      (s : CgroupV1CpusetSource R) (p : V1PayloadCache)
      → IsConfigured c s
      → IsConfigured c (record s { payload_cache = p })
  with_payloads s p i = record {
    same_hints = i.same_hints;
    same_filter = i.same_filter;
    same_cache = i.same_cache;
  }

  v1_poll_current-Answers :
      (s : CgroupV1CpusetSource R) (w : h.World)
      → IsConfigured c s
      → Answers (v1_poll_current uid_for_pid (s, w))
  unfolding v1_poll_current
  v1_poll_current-Answers s w i = by_read (h.read s.cgroup_procs_path w)
    where
      by_read : (r : Result (List ℕ) IoError × h.World) → Answers (read_first uid_for_pid s r)
      by_read (err e, w') = i
      by_read (ok payload, w') =
          let t : CgroupV1CpusetSource R = record s {
            payload_cache = record { last = some payload };
          } in
          resolve_payload-Answers payload t w' (with_payloads s (record { last = some payload }) i)

  v1_handle_fs_event-Answers :
      (path : FilePath) (s : CgroupV1CpusetSource R) (w : h.World)
      → IsConfigured c s
      → Answers (v1_handle_fs_event uid_for_pid path (s, w))
  unfolding v1_handle_fs_event
  v1_handle_fs_event-Answers path s w i =
      if_both Answers (not (path == s.cgroup_procs_path)) i (by_read (h.read s.cgroup_procs_path w))
    where
      by_read : (r : Result (List ℕ) IoError × h.World) → Answers (read_again uid_for_pid s r)
      by_read (err e, w') = i
      by_read (ok payload, w') =
          let seen = observe_payload s.payload_cache payload in
          let t : CgroupV1CpusetSource R = record s { payload_cache = seen.1 } in
          resolve_payload-Answers (current_payload uid_for_pid seen) t w' (with_payloads s seen.1 i)

  answered_hints :
      (r : V1Answer h R (Option ForegroundCandidate))
      → Answers r
      → r.1.0.watch_hint_paths ≡ c.watch_hint_paths
  answered_hints (ok none, (s, w)) i = i.same_hints
  answered_hints (ok (some candidate), (s, w)) i = i.0.same_hints
  answered_hints (err e, (s, w)) i = i.same_hints

-- The methods of this source leave its hint paths alone, which is what the automatic source asks of
-- its layouts.
pub v1_source-KeepsHints :
    {h : Host} {R : Type 0} (uid_for_pid : PidUidResolver h R) → KeepsHints (v1_source uid_for_pid)
unfolding v1_source
v1_source-KeepsHints {h} {R} u = record {
  poll = λ (s, w).
      answered_hints u s (v1_poll_current u (s, w)) (v1_poll_current-Answers u s s w (same s));
  fs_event = λ path mask (s, w).
      answered_hints u s (v1_handle_fs_event u path (s, w))
        (v1_handle_fs_event-Answers u s path s w (same s));
  priority = λ path t. refl;
  stale = λ path t. refl;
}
  where
    same : (s : CgroupV1CpusetSource R) → IsConfigured s s
    same s = record { same_hints = refl; same_filter = refl; same_cache = refl }
