-- ===== src/Watch/Poll/Examples.antt =====
-- A poll of a small watch, made on the sample host.
use core_shift_engine.Base.{◌≡◌, refl, false, Bool, [], ◌∷◌, pos}
use core_shift_engine.Samples.{
  sample_host, sample_exec, sample_manager, sample_invalidator, source_with, turn, top_app,
}
use core_shift_engine.Foreground.Source.{ForegroundSource}
use core_shift_engine.Btree.Set.{contains}
use core_shift_engine.Paths.{path_ord}
use core_shift_engine.Services.{SystemServices, new_services}
use core_shift_engine.Watch.Registrations.{EngineWatch, foreground, fresh_watch, new_watch}
use core_shift_engine.Watch.Registrations.Shape.{IsWatch}
use core_shift_engine.Watch.Registrations.Sync.{Made, new_watch-Made}
use core_shift_engine.Watch.Poll.{polling, poll_once_with_socket_events}
use core_shift_engine.Watch.Poll.Ready.{
  Replayed, Reported, awaited, poll_once_with_socket_events-Replayed,
  poll_once_with_socket_events-IsWatch,
}
use core_shift_engine.Watch.Examples.{idle}

abbrev sample_source : ForegroundSource sample_host Bool
sample_source = source_with turn

new_watch-Made_example : Made (new_watch sample_source sample_manager sample_invalidator 0).0
new_watch-Made_example = new_watch-Made sample_source sample_manager sample_invalidator 0

-- The watch 3 is for the foreground, and the token 1 is of a socket and of inotify.
abbrev pub sample_watch : EngineWatch sample_host Bool
sample_watch = record (fresh_watch sample_manager) {
  watches = (pos 3, (top_app, foreground)) ∷ [];
  foreground_paths = top_app ∷ [];
  socket_tokens = 7 ∷ [];
}

pub sample_watch-IsWatch : IsWatch (7 ∷ []) sample_watch
unfolding contains path_ord
sample_watch-IsWatch = record {
  watched = ((refl, refl), tt);
  sockets = refl;
  tokened = tt;
  keyed = tt;
}

abbrev services : SystemServices sample_host
services = new_services sample_exec

poll_once_with_socket_events-Replayed_example : Replayed idle.state (
    poll_once_with_socket_events sample_source services
      (pos 5)
      (polling sample_watch sample_invalidator idle.state 0))
poll_once_with_socket_events-Replayed_example =
    poll_once_with_socket_events-Replayed sample_source services (pos 5) sample_watch
      sample_invalidator idle.state 0

poll_once_with_socket_events-IsWatch_example :
    let (r, p) =
      poll_once_with_socket_events sample_source services
        (pos 5)
        (polling sample_watch sample_invalidator idle.state 0) in
    IsWatch (7 ∷ []) p.watch
    × (p.refreshed ≡ false)
    × Reported (awaited sample_host (7 ∷ []) (sample_host.wait 16 (pos 5) 0)) r
poll_once_with_socket_events-IsWatch_example =
    poll_once_with_socket_events-IsWatch sample_source services (7 ∷ []) (pos 5) sample_watch
      sample_invalidator idle.state 0 sample_watch-IsWatch
