-- ===== src/Invalidator/Examples.antt =====
-- The invalidator at an interval of three.
use core_shift_engine.Base.{◌≡◌, refl, arith}
use core_shift_engine.Samples.{sample_host, sample_invalidator}
use core_shift_engine.Config.{enabled}
use core_shift_engine.Invalidator.{check_packages_xml}
use core_shift_engine.Invalidator.Interval.{marks, marks_check}

marks_check_example :
    let (_, i, w) =
      check_packages_xml {h = sample_host} (record sample_invalidator { foreground_count = 3 }) 0 in
    (marks sample_host 2 sample_invalidator 0
      ≡ (record sample_invalidator { foreground_count = 2 }, 0))
    × (marks sample_host 3 sample_invalidator 0 ≡ (i, w))
unfolding enabled
marks_check_example = marks_check sample_host 2 sample_invalidator 0 refl refl (omega arith) refl
