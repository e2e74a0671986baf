-- ===== src/Foreground/Auto/Hints.antt =====
-- The paths to watch follow the layout in use.
use core_shift_engine.Base.{
  ℕ, ◌≡◌, refl, Bool, true, false, ◌||◌, Option, ok, err, Act, ◌==◌, any, Bool-cases, inl, inr,
  if_both, if◌then◌else◌, arith,
}
use core_shift_engine.Paths.{FilePath, path_ord, parent}
use core_shift_engine.Host.{Host}
use core_shift_engine.Error.{EngineError}
use core_shift_engine.Foreground.Source.{ForegroundSource, ForegroundCandidate}
use core_shift_engine.Foreground.Auto.{
  AutoForegroundSource, Answer, holds, is_parent, set_v1_available, or_activity, or_others,
  poll_without_v1, recovered, recover_v1_or, auto_poll_current, auto_handle_fs_event_with_mask,
  auto_handle_priority_event, auto_handle_stale_priority_event, bool_eq, refresh_watch_hint_paths,
  merge_paths, new_auto,
}

-- A source whose methods leave its hint paths alone, as both layouts of control groups do.
pub record KeepsHints {h : Host} {S : Type 0} (ops : ForegroundSource h S) : Type 0 where
  pub poll :
      (t : S × h.World) → ops.watch_hint_paths (ops.poll_current t).1.0 ≡ ops.watch_hint_paths t.0
  pub fs_event :
      (path : FilePath) (mask : ℕ) (t : S × h.World)
      → ops.watch_hint_paths (ops.handle_fs_event_with_mask path mask t).1.0
        ≡ ops.watch_hint_paths t.0
  pub priority :
      (path : FilePath) (t : S × h.World)
      → ops.watch_hint_paths (ops.handle_priority_event path t).1.0 ≡ ops.watch_hint_paths t.0
  pub stale :
      (path : FilePath) (t : S × h.World)
      → ops.watch_hint_paths (ops.handle_stale_priority_event path t).1.0 ≡ ops.watch_hint_paths t.0

module _ {h : Host} {V1 V2 : Type 0} (v1_ops : ForegroundSource h V1)
    (v2_ops : ForegroundSource h V2)
    (activity : Act (EngineError h) h.World (Option ForegroundCandidate)) where
  -- The first layout's paths alone while it works, and those of both while it does not.
  abbrev pub IsSynced : AutoForegroundSource V1 V2 → Type 0
  IsSynced s = s.watch_hint_paths ≡ (
      if s.v1_available
      then v1_ops.watch_hint_paths s.v1
      else merge_paths (v1_ops.watch_hint_paths s.v1) (v2_ops.watch_hint_paths s.v2))

  set-IsSynced :
      (s : AutoForegroundSource V1 V2) (b : Bool)
      → IsSynced s
      → IsSynced (set_v1_available v1_ops v2_ops activity s b)
  unfolding set_v1_available refresh_watch_hint_paths
  set-IsSynced s b k = elim (Bool-cases (bool_eq s.v1_available b)) [
    | inl same ↦ rw same k
    | inr other ↦ rw other refl
  ]

  set-sources :
      (s : AutoForegroundSource V1 V2) (b : Bool)
      → ((set_v1_available v1_ops v2_ops activity s b).v1 ≡ s.v1)
        × ((set_v1_available v1_ops v2_ops activity s b).v2 ≡ s.v2)
        × ((set_v1_available v1_ops v2_ops activity s b).v1_available ≡ b)
  unfolding set_v1_available refresh_watch_hint_paths
  set-sources s b = ground arith

  -- The second source's answer keeps its hints.
  or_activity-IsSynced :
      (s : AutoForegroundSource V1 V2) (a : Answer h (V2 × h.World))
      → v2_ops.watch_hint_paths a.1.0 ≡ v2_ops.watch_hint_paths s.v2
      → IsSynced s
      → IsSynced (or_activity v1_ops v2_ops activity s a).1.0
  or_activity-IsSynced s (ok c, (v2, w)) e k = rw e k
  or_activity-IsSynced s (err x, (v2, w)) e k = rw e k

  poll_without_v1-IsSynced :
      (k2 : KeepsHints v2_ops) (s : AutoForegroundSource V1 V2) (w : h.World)
      → IsSynced s
      → IsSynced (poll_without_v1 v1_ops v2_ops activity s w).1.0
  unfolding poll_without_v1
  poll_without_v1-IsSynced k2 s w k = or_activity-IsSynced _ _ (k2.poll _) (set-IsSynced s false k)

  or_others-IsSynced :
      (k2 : KeepsHints v2_ops) (s : AutoForegroundSource V1 V2) (a : Answer h (V1 × h.World))
      → v1_ops.watch_hint_paths a.1.0 ≡ v1_ops.watch_hint_paths s.v1
      → IsSynced s
      → IsSynced (or_others v1_ops v2_ops activity s a).1.0
  or_others-IsSynced k2 s (ok c, (v1, w)) e k = set-IsSynced (record s { v1 = v1 }) true (rw e k)
  or_others-IsSynced k2 s (err x, (v1, w)) e k =
      poll_without_v1-IsSynced k2 (record s { v1 = v1 }) w (rw e k)

  recover_v1_or-IsSynced :
      (k1 : KeepsHints v1_ops)
      (rest : AutoForegroundSource V1 V2
        → h.World
        → Answer h (AutoForegroundSource V1 V2 × h.World))
      → ((s : AutoForegroundSource V1 V2) (w : h.World) → IsSynced s → IsSynced (rest s w).1.0)
      → (s : AutoForegroundSource V1 V2) (w : h.World) → IsSynced s
      → IsSynced (recover_v1_or v1_ops v2_ops activity rest s w).1.0
  unfolding recover_v1_or
  recover_v1_or-IsSynced k1 rest k s w sy =
      if_both (λ (a : Answer h (AutoForegroundSource V1 V2 × h.World)). IsSynced a.1.0)
        s.v1_available sy (recovered-IsSynced (v1_ops.poll_current (s.v1, w)) (k1.poll (s.v1, w)))
    where
      recovered-IsSynced :
          (a : Answer h (V1 × h.World))
          → v1_ops.watch_hint_paths a.1.0 ≡ v1_ops.watch_hint_paths s.v1
          → IsSynced (recovered v1_ops v2_ops activity s rest a).1.0
      recovered-IsSynced (ok c, (v1, w')) e = set-IsSynced (record s { v1 = v1 }) true (rw e sy)
      recovered-IsSynced (err x, (v1, w')) e = k (record s { v1 = v1 }) w' (rw e sy)

  -- Polling and the three event handlers keep the watch paths those of the layout in use, if the
  -- methods of the two layouts leave their own hint paths alone.
  pub auto-IsSynced :
      (k1 : KeepsHints v1_ops) (k2 : KeepsHints v2_ops) (path : FilePath) (mask : ℕ)
      (s : AutoForegroundSource V1 V2) (w : h.World)
      → IsSynced s
      → IsSynced (auto_poll_current v1_ops v2_ops activity (s, w)).1.0
        × IsSynced (auto_handle_fs_event_with_mask v1_ops v2_ops activity path mask (s, w)).1.0
        × IsSynced (auto_handle_priority_event v1_ops v2_ops activity path (s, w)).1.0
        × IsSynced (auto_handle_stale_priority_event v1_ops v2_ops activity path (s, w)).1.0
  unfolding auto_poll_current auto_handle_fs_event_with_mask auto_handle_priority_event
      auto_handle_stale_priority_event
  auto-IsSynced k1 k2 path mask s w sy = (
    or_others-IsSynced k2 s (v1_ops.poll_current (s.v1, w)) (k1.poll (s.v1, w)) sy,
    fs_event,
    recover_v1_or-IsSynced k1 _
        (λ s' w' k. or_activity-IsSynced s' _ (k2.priority path (s'.v2, w')) k) s w sy,
    recover_v1_or-IsSynced k1 _ (λ s' w' k. or_activity-IsSynced s' _ (k2.stale path (s'.v2, w')) k)
        s w sy,
  )
    where
      fs_event :
          IsSynced (auto_handle_fs_event_with_mask v1_ops v2_ops activity path mask (s, w)).1.0
      fs_event =
          let P = λ (a : Answer h (AutoForegroundSource V1 V2 × h.World)). IsSynced a.1.0 in
          if_both P (holds (v1_ops.watch_hint_paths s.v1) path)
            (or_others-IsSynced k2 s _ (k1.fs_event path mask (s.v1, w)) sy)
            (if_both P
              (any (λ hint. hint == path || is_parent (parent path) hint)
                (v2_ops.watch_hint_paths s.v2))
              (recover_v1_or-IsSynced k1 _
                (λ s' w' k. or_activity-IsSynced s' _ (k2.fs_event path mask (s'.v2, w')) k) s w sy)
              (or_others-IsSynced k2 s (v1_ops.poll_current (s.v1, w)) (k1.poll (s.v1, w)) sy))

  -- A new source is in that state.
  pub new_auto-IsSynced :
      (v1 : V1) (v2 : V2) (w : h.World) → IsSynced (new_auto v1_ops v2_ops activity v1 v2 w)
  unfolding new_auto
  new_auto-IsSynced v1 v2 w = refl
