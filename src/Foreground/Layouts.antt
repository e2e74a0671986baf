-- ===== src/Foreground/Layouts.antt =====
-- `AutoForegroundSource` over the two sources that read control groups.
use core_shift_engine.Base.{ℕ, Option, Act}
use core_shift_engine.Paths.{FilePath}
use core_shift_engine.Host.{Host}
use core_shift_engine.Error.{EngineError}
use core_shift_engine.Foreground.Source.{ForegroundCandidate}
use core_shift_engine.Foreground.Auto.{
  AutoForegroundSource, auto_poll_current, auto_handle_fs_event_with_mask,
  auto_handle_priority_event, auto_handle_stale_priority_event,
}
use core_shift_engine.Foreground.Auto.Hints.{IsSynced, auto-IsSynced}
use core_shift_engine.Foreground.CgroupV1.{PidUidResolver, CgroupV1CpusetSource}
use core_shift_engine.Foreground.CgroupV1.Source.{v1_source}
use core_shift_engine.Foreground.CgroupV1.Answers.{v1_source-KeepsHints}
use core_shift_engine.Foreground.CgroupV2.{CgroupV2EventsSource}
use core_shift_engine.Foreground.CgroupV2.Source.{v2_source}
use core_shift_engine.Foreground.CgroupV2.Contract.{v2_source-KeepsHints}

-- Over the process list of the first layout and the events of the second, whatever resolves uids and
-- whatever the activity manager answers, polling and the three event handlers keep the watch paths
-- those of the layout in use.
pub layouts-IsSynced :
    {h : Host} {R : Type 0} (uid_for_pid : PidUidResolver h R)
    (activity : Act (EngineError h) h.World (Option ForegroundCandidate)) (path : FilePath)
    (mask : ℕ) (s : AutoForegroundSource (CgroupV1CpusetSource R) (CgroupV2EventsSource h))
    (w : h.World)
    → IsSynced (v1_source uid_for_pid) (v2_source h) activity s
    → let v1 = v1_source uid_for_pid in
      let v2 = v2_source h in
      IsSynced v1 v2 activity (auto_poll_current v1 v2 activity (s, w)).1.0
      × IsSynced v1 v2 activity (auto_handle_fs_event_with_mask v1 v2 activity path mask (s, w)).1.0
      × IsSynced v1 v2 activity (auto_handle_priority_event v1 v2 activity path (s, w)).1.0
      × IsSynced v1 v2 activity (auto_handle_stale_priority_event v1 v2 activity path (s, w)).1.0
layouts-IsSynced {h} uid_for_pid activity path mask s w k =
    auto-IsSynced (v1_source uid_for_pid) (v2_source h) activity (v1_source-KeepsHints uid_for_pid)
      (v2_source-KeepsHints h) path mask s w k
