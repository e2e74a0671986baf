-- ===== src/Foreground/Auto/Fallback.antt =====
-- Errors of the two layouts never reach the caller.
use core_shift_engine.Base.{
  ℕ, ◌≡◌, refl, Bool, true, false, ◌||◌, Option, Result, ok, err, Act, ◌==◌, any, if_both,
}
use core_shift_engine.Paths.{FilePath, path_ord, parent}
use core_shift_engine.Host.{Host}
use core_shift_engine.Error.{EngineError}
use core_shift_engine.Foreground.Source.{ForegroundSource, ForegroundCandidate}
use core_shift_engine.Foreground.Auto.{
  AutoForegroundSource, Answer, holds, is_parent, set_v1_available, or_activity, or_others,
  poll_without_v1, recovered, recover_v1_or, auto_poll_current, auto_handle_fs_event_with_mask,
  auto_handle_priority_event, auto_handle_stale_priority_event,
}

abbrev pub is_ok {ℓ κ} : {A : Type ℓ} {E : Type κ} → Result A E → Bool
is_ok (ok a) = true
is_ok (err e) = false

module _ {h : Host} {V1 V2 : Type 0} (v1_ops : ForegroundSource h V1)
    (v2_ops : ForegroundSource h V2)
    (activity : Act (EngineError h) h.World (Option ForegroundCandidate))
    (answers : (w : h.World) → is_ok (activity w).0 ≡ true) where
  or_activity-ok :
      (s : AutoForegroundSource V1 V2) (a : Answer h (V2 × h.World))
      → is_ok (or_activity v1_ops v2_ops activity s a).0 ≡ true
  or_activity-ok s (ok c, (v2, w)) = refl
  or_activity-ok s (err e, (v2, w)) = answers w

  or_others-ok :
      (s : AutoForegroundSource V1 V2) (a : Answer h (V1 × h.World))
      → is_ok (or_others v1_ops v2_ops activity s a).0 ≡ true
  unfolding poll_without_v1
  or_others-ok s (ok c, (v1, w)) = refl
  or_others-ok s (err e, (v1, w)) =
      let s' = set_v1_available v1_ops v2_ops activity (record s { v1 = v1 }) false in
      or_activity-ok s' (v2_ops.poll_current (s'.v2, w))

  recover_v1_or-ok :
      (rest : AutoForegroundSource V1 V2
        → h.World
        → Answer h (AutoForegroundSource V1 V2 × h.World))
      → ((s : AutoForegroundSource V1 V2) (w : h.World) → is_ok (rest s w).0 ≡ true)
      → (s : AutoForegroundSource V1 V2) (w : h.World)
      → is_ok (recover_v1_or v1_ops v2_ops activity rest s w).0 ≡ true
  unfolding recover_v1_or
  recover_v1_or-ok rest k s w =
      if_both (λ (a : Answer h (AutoForegroundSource V1 V2 × h.World)). is_ok a.0 ≡ true)
        s.v1_available refl (recovered-ok (v1_ops.poll_current (s.v1, w)))
    where
      recovered-ok :
          (a : Answer h (V1 × h.World)) → is_ok (recovered v1_ops v2_ops activity s rest a).0 ≡ true
      recovered-ok (ok c, (v1, w')) = refl
      recovered-ok (err e, (v1, w')) = k _ w'

  -- If the activity manager always answers, then so do polling and the three event handlers, in
  -- every state and whatever errors the two layouts return.
  pub auto-never_fails :
      (path : FilePath) (mask : ℕ) (s : AutoForegroundSource V1 V2) (w : h.World)
      → (is_ok (auto_poll_current v1_ops v2_ops activity (s, w)).0 ≡ true)
        × (is_ok (auto_handle_fs_event_with_mask v1_ops v2_ops activity path mask (s, w)).0 ≡ true)
        × (is_ok (auto_handle_priority_event v1_ops v2_ops activity path (s, w)).0 ≡ true)
        × (is_ok (auto_handle_stale_priority_event v1_ops v2_ops activity path (s, w)).0 ≡ true)
  unfolding auto_poll_current auto_handle_fs_event_with_mask auto_handle_priority_event
      auto_handle_stale_priority_event
  auto-never_fails path mask s w = (
    or_others-ok s (v1_ops.poll_current (s.v1, w)),
    fs_event,
    recover_v1_or-ok _ (λ s' w'. or_activity-ok s' _) s w,
    recover_v1_or-ok _ (λ s' w'. or_activity-ok s' _) s w,
  )
    where
      fs_event :
          is_ok (auto_handle_fs_event_with_mask v1_ops v2_ops activity path mask (s, w)).0 ≡ true
      fs_event =
          let P = λ (a : Answer h (AutoForegroundSource V1 V2 × h.World)). is_ok a.0 ≡ true in
          if_both P (holds (v1_ops.watch_hint_paths s.v1) path) (or_others-ok s _) (
            if_both P
              (any (λ hint. hint == path || is_parent (parent path) hint)
                (v2_ops.watch_hint_paths s.v2))
              (recover_v1_or-ok _ (λ s' w'. or_activity-ok s' _) s w)
              (or_others-ok s (v1_ops.poll_current (s.v1, w))))
