-- ===== src/Runtime/Examples.antt =====
-- The runtime at a small configuration, on a host whose package command answers.
use core_shift_engine.Base.{Bool, refl, true, pos, [], ◌∷◌}
use core_shift_engine.Samples.{sample_host, sample_config, listing}
use core_shift_engine.Foreground.Cache.{uid_state}
use core_shift_engine.Foreground.Cache.Rebuild.{packages_of}
use core_shift_engine.Foreground.Cache.States.{Describes}
use core_shift_engine.Foreground.Cache.Parse.{parse_cmd_package_list_stdout}
use core_shift_engine.Runtime.{EngineRuntime, new_runtime, start, refresh_identity_cache}
use core_shift_engine.Runtime.Lifecycle.{Starts, start-Starts}
use core_shift_engine.Runtime.Refresh.{
  IsConsistent, refresh_identity_cache-IsConsistent, refresh_identity_cache-Describes,
}
use core_shift_engine.Samples.{source_with, turn}
use core_shift_engine.Watch.Examples.{idle}
use core_shift_engine.Watch.Poll.Examples.{sample_watch, sample_watch-IsWatch}
use core_shift_engine.Runtime.Step.{
  Stepping, step, steps, Returned, Keeps, step-Returned, steps-Keeps,
}

abbrev pub sample_runtime : EngineRuntime sample_host
sample_runtime = (new_runtime {h = sample_host} sample_config 0).0

start-Starts_example : Starts (sample_runtime, 1) (start (sample_runtime, 1))
start-Starts_example = start-Starts sample_runtime 1

refresh_identity_cache-IsConsistent_example :
    IsConsistent (refresh_identity_cache sample_runtime 1).0
refresh_identity_cache-IsConsistent_example = refresh_identity_cache-IsConsistent sample_runtime 1

refresh_identity_cache-Describes_example :
    Describes
      (packages_of 10001 (parse_cmd_package_list_stdout listing))
      (uid_state (refresh_identity_cache sample_runtime 1).0.identity_cache 10001)
unfolding new_runtime
refresh_identity_cache-Describes_example =
    refresh_identity_cache-Describes sample_runtime 1 2 (true, listing) 10001 refl refl refl

abbrev sample_stepping : Stepping sample_host Bool
sample_stepping = record {
  runtime = record sample_runtime { started = true };
  watch = sample_watch;
  state = idle.state;
  world = 1;
}

step-Returned_example : Returned idle.state (step (source_with turn) (pos 5) sample_stepping)
step-Returned_example = step-Returned (source_with turn) (pos 5) sample_stepping

steps-Keeps_example :
    Keeps
      (7 ∷ [])
      sample_stepping.runtime
      (steps (source_with turn) (pos 5 ∷ pos 0 ∷ []) sample_stepping)
steps-Keeps_example =
    steps-Keeps (source_with turn) (7 ∷ []) (pos 5 ∷ pos 0 ∷ []) sample_stepping
      sample_watch-IsWatch
