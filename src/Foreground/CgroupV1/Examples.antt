-- ===== src/Foreground/CgroupV1/Examples.antt =====
-- A process list with two processes.
use core_shift_engine.Base.{suc, ◌≡◌, refl, ok, some}
use core_shift_engine.Text.Chars.{codes}
use core_shift_engine.Host.{Host}
use core_shift_engine.Samples.{sample_host, sample_filter, top_app, packages_xml}
use core_shift_engine.Foreground.CgroupV1.{CgroupV1CpusetSource, new_v1, package_from_proc_cmdline}
use core_shift_engine.Foreground.CgroupV1.Answers.{Answers}
use core_shift_engine.Text.Split.{split_whitespace, split, contains_text}

abbrev listing_host : Host
listing_host = record sample_host { read = λ path w. (ok (codes "141"), suc w) }

abbrev listed : CgroupV1CpusetSource (Unit {0})
listed = new_v1 top_app packages_xml sample_filter tt

ui_process : package_from_proc_cmdline (codes "com.chat.app:ui x") ≡ some (codes "com.chat.app")
unfolding package_from_proc_cmdline split_whitespace split contains_text
ui_process = refl
