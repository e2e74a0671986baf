-- ===== src/Foreground/Manager/Examples.antt =====
-- The manager and the pipeline with a source that tells two applications in turn.
use core_shift_engine.Base.{◌≡◌, ◌+◌, refl, List, [], ◌∷◌, none, some, arith, length, Option}
use core_shift_engine.Config.{enabled}
use core_shift_engine.Samples.{
  sample_manager, sample_invalidator, source_with, turn, top_app, chat_candidate, mail_candidate,
}
use core_shift_engine.Foreground.Source.{ForegroundCandidate}
use core_shift_engine.Foreground.Manager.{
  poll_update, handle_fs_event_update, handle_priority_event_update,
  handle_stale_priority_event_update,
}
use core_shift_engine.Foreground.Manager.Changes.{
  Alternates, last_told, filter_run, filter_run-Alternates,
}
use core_shift_engine.Foreground.Manager.Methods.{Leaves, updates-Leaves}
use core_shift_engine.Foreground.Manager.Pipeline.{held, polls, polls-counts}

abbrev sample_answers : List (Option ForegroundCandidate)
sample_answers = some chat_candidate ∷ none ∷ some mail_candidate ∷ some mail_candidate ∷ []

filter_run-Alternates_example :
    Alternates (some chat_candidate) (filter_run sample_manager sample_answers).0
    × ((filter_run sample_manager sample_answers).1.last_payload ≡ some mail_candidate)
    × (last_told (some chat_candidate) (filter_run sample_manager sample_answers).0
        ≡ some mail_candidate)
filter_run-Alternates_example = filter_run-Alternates sample_manager sample_answers

updates-Leaves_example :
    Leaves (some chat_candidate) (poll_update (source_with turn) (sample_manager, 0))
    × Leaves
        (some chat_candidate)
        (handle_fs_event_update (source_with turn) top_app 2 (sample_manager, 0))
    × Leaves
        (some chat_candidate)
        (handle_priority_event_update (source_with turn) top_app (sample_manager, 0))
    × Leaves
        (some chat_candidate)
        (handle_stale_priority_event_update (source_with turn) top_app (sample_manager, 0))
updates-Leaves_example = updates-Leaves (source_with turn) top_app 2 sample_manager 0

polls-counts_example :
    let (events, t) = polls (source_with turn) 4 (sample_manager, sample_invalidator, 0) in
    length events + 0 + 1 ≡ t.1.foreground_count + held t.0.last_payload
unfolding enabled
polls-counts_example =
    polls-counts (source_with turn) 4 sample_manager sample_invalidator 0 refl (omega arith)
