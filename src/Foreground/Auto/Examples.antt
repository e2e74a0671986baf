-- ===== src/Foreground/Auto/Examples.antt =====
-- The automatic source with a first layout that fails and a second that works.
use core_shift_engine.Base.{◌≡◌, refl, true, false, [], ◌∷◌, Bool}
use core_shift_engine.Samples.{source_with, turn, failing, sample_activity, top_app}
use core_shift_engine.Foreground.Auto.{
  AutoForegroundSource, auto_poll_current, auto_handle_fs_event_with_mask,
  auto_handle_priority_event, auto_handle_stale_priority_event,
}
use core_shift_engine.Foreground.Auto.Fallback.{is_ok, auto-never_fails}
use core_shift_engine.Foreground.Auto.Hints.{KeepsHints, IsSynced, auto-IsSynced}

abbrev sample_auto : AutoForegroundSource Bool Bool
sample_auto = record { v1 = false; v2 = true; watch_hint_paths = top_app ∷ []; v1_available = true }

auto-never_fails_example :
    (is_ok
        (auto_poll_current
          (source_with failing)
          (source_with turn)
          sample_activity
          (sample_auto, 0)).0
      ≡ true)
    × (is_ok
          (auto_handle_fs_event_with_mask
            (source_with failing)
            (source_with turn)
            sample_activity
            top_app
            2
            (sample_auto, 0)).0
        ≡ true)
    × (is_ok
          (auto_handle_priority_event
            (source_with failing)
            (source_with turn)
            sample_activity
            top_app
            (sample_auto, 0)).0
        ≡ true)
    × (is_ok
          (auto_handle_stale_priority_event
            (source_with failing)
            (source_with turn)
            sample_activity
            top_app
            (sample_auto, 0)).0
        ≡ true)
auto-never_fails_example =
    auto-never_fails (source_with failing) (source_with turn) sample_activity (λ w. refl) top_app 2
      sample_auto 0

failing_keeps : KeepsHints (source_with failing)
failing_keeps = record {
  poll = λ t. refl;
  fs_event = λ path mask t. refl;
  priority = λ path t. refl;
  stale = λ path t. refl;
}

turn_keeps : KeepsHints (source_with turn)
turn_keeps = record {
  poll = λ t. refl;
  fs_event = λ path mask t. refl;
  priority = λ path t. refl;
  stale = λ path t. refl;
}

auto-IsSynced_example :
    let v1 = source_with failing in
    let v2 = source_with turn in
    IsSynced v1 v2 sample_activity (auto_poll_current v1 v2 sample_activity (sample_auto, 0)).1.0
    × IsSynced v1 v2 sample_activity
        (auto_handle_fs_event_with_mask v1 v2 sample_activity top_app 2 (sample_auto, 0)).1.0
    × IsSynced v1 v2 sample_activity
        (auto_handle_priority_event v1 v2 sample_activity top_app (sample_auto, 0)).1.0
    × IsSynced v1 v2 sample_activity
        (auto_handle_stale_priority_event v1 v2 sample_activity top_app (sample_auto, 0)).1.0
auto-IsSynced_example =
    auto-IsSynced (source_with failing) (source_with turn) sample_activity failing_keeps turn_keeps
      top_app 2 sample_auto 0 refl
