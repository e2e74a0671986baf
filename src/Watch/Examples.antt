-- ===== src/Watch/Examples.antt =====
-- The replay of events at a small run.
use core_shift_engine.Base.{◌≡◌, refl, List, [], ◌∷◌, none, some, false, ok, pos}
use core_shift_engine.Samples.{
  sample_host, sample_exec, chat_candidate, sample_filter, sample_snapshot, stale_cache,
}
use core_shift_engine.Events.{
  EngineEvent, runtime_started, foreground_candidate_changed, identity_resolved,
}
use core_shift_engine.Services.{SystemServices, new_services, with_uid_package_cache}
use core_shift_engine.Watch.{Emission, apply_events}
use core_shift_engine.Foreground.Cache.{update_from_snapshot}
use core_shift_engine.Foreground.Source.{cgroup_v1}
use core_shift_engine.Foreground.Source.Examples.{chat_resolved}
use core_shift_engine.Identity.Agreement.{identity_of}
use core_shift_engine.Watch.Reaction.{apply_events-candidate}
use core_shift_engine.Watch.Replay.{Replays, apply_events-Replays}

abbrev sample_events : List (EngineEvent sample_host)
sample_events = runtime_started ∷ foreground_candidate_changed chat_candidate ∷ []

abbrev pub idle : Emission sample_host
idle = record {
  state = record {
    started = false;
    completed_jobs = 0;
    last_identity = none;
    identity_cache = record { source = none; coherent = false; count = 0; last_cache_error = none };
    last_error = none;
  };
  emitted = [];
  world = 0;
}

apply_events-Replays_example :
    Replays idle (apply_events (new_services sample_exec) sample_events idle).1
apply_events-Replays_example = apply_events-Replays (new_services sample_exec) sample_events idle

-- Services that know the packages of the snapshot.
abbrev informed : SystemServices sample_host
informed =
    with_uid_package_cache (new_services sample_exec)
      (update_from_snapshot stale_cache sample_snapshot)

apply_events-candidate_example :
    apply_events informed (foreground_candidate_changed chat_candidate ∷ []) idle ≡ (
      ok tt,
      record {
        state = record idle.state { last_identity = some (identity_of chat_candidate) };
        emitted =
            foreground_candidate_changed chat_candidate
            ∷ identity_resolved (identity_of chat_candidate)
            ∷ [];
        world = 0;
      },
    )
apply_events-candidate_example =
    apply_events-candidate informed sample_filter cgroup_v1 (some (pos 41)) 10001
      (update_from_snapshot stale_cache sample_snapshot) chat_candidate idle refl chat_resolved
