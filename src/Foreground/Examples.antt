-- ===== src/Foreground/Examples.antt =====
-- The automatic source over both layouts, at small inputs.
use core_shift_engine.Base.{[], ◌∷◌}
use core_shift_engine.Samples.{sample_host, sample_filter, sample_activity, top_app, packages_xml}
use core_shift_engine.Foreground.Auto.{
  AutoForegroundSource, new_auto, auto_poll_current, auto_handle_fs_event_with_mask,
  auto_handle_priority_event, auto_handle_stale_priority_event,
}
use core_shift_engine.Foreground.Auto.Hints.{IsSynced, new_auto-IsSynced}
use core_shift_engine.Foreground.CgroupV1.{CgroupV1CpusetSource, new_v1, procfs_uid_for_pid}
use core_shift_engine.Foreground.CgroupV1.Source.{v1_source}
use core_shift_engine.Foreground.CgroupV2.{CgroupV2EventsSource, bare_v2}
use core_shift_engine.Foreground.CgroupV2.Source.{v2_source}
use core_shift_engine.Foreground.Layouts.{layouts-IsSynced}

abbrev both :
    AutoForegroundSource (CgroupV1CpusetSource (Unit {0})) (CgroupV2EventsSource sample_host)
both =
    new_auto {h = sample_host} (v1_source {h = sample_host} (procfs_uid_for_pid sample_host))
      (v2_source sample_host) sample_activity (new_v1 packages_xml top_app sample_filter tt)
      (bare_v2 {h = sample_host} (top_app ∷ []) sample_filter) 0

layouts-IsSynced_example :
    let v1 = v1_source {h = sample_host} (procfs_uid_for_pid sample_host) in
    let v2 = v2_source sample_host in
    IsSynced {h = sample_host} v1 v2 sample_activity
      (auto_poll_current {h = sample_host} v1 v2 sample_activity (both, 0)).1.0
    × IsSynced {h = sample_host} v1 v2 sample_activity
        (auto_handle_fs_event_with_mask {h = sample_host} v1 v2 sample_activity packages_xml 2
          (both, 0)).1.0
    × IsSynced {h = sample_host} v1 v2 sample_activity
        (auto_handle_priority_event {h = sample_host} v1 v2 sample_activity packages_xml
          (both, 0)).1.0
    × IsSynced {h = sample_host} v1 v2 sample_activity
        (auto_handle_stale_priority_event {h = sample_host} v1 v2 sample_activity packages_xml
          (both, 0)).1.0
layouts-IsSynced_example =
    layouts-IsSynced {h = sample_host} (procfs_uid_for_pid sample_host) sample_activity packages_xml
      2 both 0
      (new_auto-IsSynced {h = sample_host}
        (v1_source {h = sample_host} (procfs_uid_for_pid sample_host)) (v2_source sample_host)
        sample_activity (new_v1 packages_xml top_app sample_filter tt)
        (bare_v2 {h = sample_host} (top_app ∷ []) sample_filter) 0)
