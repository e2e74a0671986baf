-- ===== src/Foreground/Auto.antt =====
-- services/foreground/auto.rs: the first control-group layout that works, and the activity manager
-- behind both.
pub mod Fallback
pub mod Hints
mod Examples
use core_shift_engine.Base.{
  ℕ, Bool, true, false, ◌||◌, ◌&&◌, not, List, [], ◌∷◌, ◌++◌, Option, none, some, Result, ok, err,
  Act, ◌==◌, if◌then◌else◌, any,
}
use core_shift_engine.Btree.Set.{BtreeSet}
use core_shift_engine.Paths.{FilePath, path_ord, parent}
use core_shift_engine.Host.{Host}
use core_shift_engine.Error.{EngineError}
use core_shift_engine.Foreground.Source.{
  ForegroundSource, ForegroundSourceKind, ForegroundCandidate, auto_source,
}

-- The closure `activity` is a parameter of the methods: what it captures is part of the world.
pub record AutoForegroundSource (V1 V2 : Type 0) : Type 0 where
  pub v1 : V1
  pub v2 : V2
  pub watch_hint_paths : List FilePath
  pub v1_available : Bool

abbrev pub Answer : Host → Type 0 → Type 0
Answer h T = Result (Option ForegroundCandidate) (EngineError h) × T

abbrev bool_eq : Bool → Bool → Bool
bool_eq true b = b
bool_eq false b = not b

-- `Vec::contains` of a path.
abbrev holds : List FilePath → FilePath → Bool
holds paths path = any (λ hint. hint == path) paths

abbrev is_parent : Option FilePath → FilePath → Bool
is_parent none hint = false
is_parent (some p) hint = p == hint

-- The paths of the second list that are not there yet, in order.
pub merge_paths : List FilePath → List FilePath → List FilePath
merge_paths hints [] = hints
merge_paths hints (path ∷ paths) =
    merge_paths (if holds hints path then hints else hints ++ path ∷ []) paths

module _ {h : Host} {V1 V2 : Type 0} (v1_ops : ForegroundSource h V1)
    (v2_ops : ForegroundSource h V2)
    (activity : Act (EngineError h) h.World (Option ForegroundCandidate)) where
  abbrev Auto : Type 0
  Auto = AutoForegroundSource V1 V2

  pub refresh_watch_hint_paths : Auto → Auto
  unfolding merge_paths
  refresh_watch_hint_paths s = record s {
    watch_hint_paths =
        if s.v1_available
        then v1_ops.watch_hint_paths s.v1
        else merge_paths (v1_ops.watch_hint_paths s.v1) (v2_ops.watch_hint_paths s.v2);
  }

  pub set_v1_available : Auto → Bool → Auto
  set_v1_available s available =
      if bool_eq s.v1_available available
      then s
      else refresh_watch_hint_paths (record s { v1_available = available })

  pub new_auto : V1 → V2 → h.World → Auto
  unfolding refresh_watch_hint_paths
  new_auto v1 v2 w =
      refresh_watch_hint_paths (record {
        v1 = v1;
        v2 = v2;
        watch_hint_paths = [];
        v1_available = v1_ops.is_available v1 w;
      })

  abbrev run_activity :
      Auto
      → Result (Option ForegroundCandidate) (EngineError h) × h.World
      → Answer h (Auto × h.World)
  run_activity s (r, w) = (r, (s, w))

  -- An answer of the second source, or that of the activity manager in place of an error.
  abbrev or_activity : Auto → Answer h (V2 × h.World) → Answer h (Auto × h.World)
  or_activity s (ok candidate, (v2, w)) = (ok candidate, (record s { v2 = v2 }, w))
  or_activity s (err e, (v2, w)) = run_activity (record s { v2 = v2 }) (activity w)

  -- `poll_without_v1`, where the first source has just failed.
  pub poll_without_v1 : Auto → h.World → Answer h (Auto × h.World)
  poll_without_v1 s w =
      let s' = set_v1_available s false in or_activity s' (v2_ops.poll_current (s'.v2, w))

  -- An answer of the first source makes it available; on an error the others are polled.
  abbrev or_others : Auto → Answer h (V1 × h.World) → Answer h (Auto × h.World)
  or_others s (ok candidate, (v1, w)) =
      (ok candidate, (set_v1_available (record s { v1 = v1 }) true, w))
  or_others s (err e, (v1, w)) = poll_without_v1 (record s { v1 = v1 }) w

  pub auto_poll_current : Act (EngineError h) (Auto × h.World) (Option ForegroundCandidate)
  auto_poll_current (s, w) = or_others s (v1_ops.poll_current (s.v1, w))

  -- `recover_v1_if_available` and what each of its callers does with it: `some` is returned at once,
  -- and otherwise `rest` goes on.
  abbrev recovered :
      Auto
      → (Auto → h.World → Answer h (Auto × h.World))
      → Answer h (V1 × h.World)
      → Answer h (Auto × h.World)
  recovered s rest (ok candidate, (v1, w)) =
      (ok candidate, (set_v1_available (record s { v1 = v1 }) true, w))
  recovered s rest (err e, (v1, w)) = rest (record s { v1 = v1 }) w

  pub recover_v1_or :
      (Auto → h.World → Answer h (Auto × h.World)) → Auto → h.World → Answer h (Auto × h.World)
  recover_v1_or rest s w =
      if s.v1_available then (ok none, (s, w)) else recovered s rest (v1_ops.poll_current (s.v1, w))

  pub auto_handle_fs_event_with_mask :
      FilePath → ℕ → Act (EngineError h) (Auto × h.World) (Option ForegroundCandidate)
  auto_handle_fs_event_with_mask path mask (s, w) =
      if holds (v1_ops.watch_hint_paths s.v1) path
      then or_others s (v1_ops.handle_fs_event_with_mask path mask (s.v1, w))
      else if any (λ hint. hint == path || is_parent (parent path) hint)
          (v2_ops.watch_hint_paths s.v2)
      then recover_v1_or
          (λ s' w'. or_activity s' (v2_ops.handle_fs_event_with_mask path mask (s'.v2, w'))) s w
      else auto_poll_current (s, w)

  abbrev auto_is_available : Auto → h.World → Bool
  auto_is_available s w = s.v1_available || v2_ops.is_available s.v2 w

  abbrev auto_watch_hint_mask : Auto → FilePath → ℕ
  auto_watch_hint_mask s path =
      if holds (v1_ops.watch_hint_paths s.v1) path
      then v1_ops.watch_hint_mask s.v1 path
      else v2_ops.watch_hint_mask s.v2 path

  abbrev auto_register_priority_fds :
      Auto → BtreeSet FilePath → Act (EngineError h) h.World (List (h.Token × FilePath))
  auto_register_priority_fds s registered w =
      if s.v1_available then (ok [], w) else v2_ops.register_priority_fds s.v2 registered w

  abbrev auto_priority_hint_paths : Auto → List FilePath
  auto_priority_hint_paths s = if s.v1_available then [] else v2_ops.priority_hint_paths s.v2

  abbrev auto_priority_hint_keys : Auto → List (FilePath × ℕ)
  auto_priority_hint_keys s = if s.v1_available then [] else v2_ops.priority_hint_keys s.v2

  pub auto_handle_priority_event :
      FilePath → Act (EngineError h) (Auto × h.World) (Option ForegroundCandidate)
  auto_handle_priority_event path (s, w) =
      recover_v1_or (λ s' w'. or_activity s' (v2_ops.handle_priority_event path (s'.v2, w'))) s w

  pub auto_handle_stale_priority_event :
      FilePath → Act (EngineError h) (Auto × h.World) (Option ForegroundCandidate)
  auto_handle_stale_priority_event path (s, w) =
      recover_v1_or (λ s' w'. or_activity s' (v2_ops.handle_stale_priority_event path (s'.v2, w')))
        s w

  -- `impl ForegroundSource for AutoForegroundSource`
  abbrev pub auto : ForegroundSource h Auto
  auto = record {
    kind = λ s. auto_source;
    poll_current = auto_poll_current;
    handle_fs_event_with_mask = auto_handle_fs_event_with_mask;
    watch_hint_paths = λ s. s.watch_hint_paths;
    is_available = auto_is_available;
    watch_hint_mask = auto_watch_hint_mask;
    register_priority_fds = auto_register_priority_fds;
    priority_hint_paths = auto_priority_hint_paths;
    priority_hint_keys = auto_priority_hint_keys;
    handle_priority_event = auto_handle_priority_event;
    handle_stale_priority_event = auto_handle_stale_priority_event;
    unregister_priority_fd = λ s path w. v2_ops.unregister_priority_fd s.v2 path w;
  }
