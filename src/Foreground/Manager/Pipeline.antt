-- ===== src/Foreground/Manager/Pipeline.antt =====
-- How many changes the invalidator has counted after a run of polls.
use core_shift_engine.Base.{
  ℕ, zero, suc, ◌+◌, ◌≤◌, ◌<◌, ◌≡◌, refl, Bool, true, List, [], ◌++◌, Option, none, some, arith, ok,
  err, Result, length, length-append, ap, ◌∙◌,
}
use core_shift_engine.Host.{Host}
use core_shift_engine.Error.{EngineError}
use core_shift_engine.Events.{EngineEvent}
use core_shift_engine.State.{u64_max}
use core_shift_engine.Config.{enabled}
use core_shift_engine.Invalidator.{
  IdentityCacheInvalidator, mark_foreground_candidate, check_packages_xml,
}
use core_shift_engine.Foreground.Source.{ForegroundSource, ForegroundCandidate}
use core_shift_engine.Foreground.Manager.{
  ForegroundManager, ForegroundUpdate, ForegroundUpdateResult, active, unknown, poll_update,
  event_for_candidate, Piped, piped, poll_changed,
}
use core_shift_engine.Foreground.Manager.Methods.{Told, Leaves, updates-Leaves}

pub mark-counts :
    (h : Host) (i : IdentityCacheInvalidator) (w : h.World)
    → enabled i.config ≡ true
    → i.foreground_count < u64_max
    → ((mark_foreground_candidate h i w).0.foreground_count ≡ suc i.foreground_count)
      × ((mark_foreground_candidate h i w).0.config ≡ i.config)
unfolding mark_foreground_candidate check_packages_xml
mark-counts h i w on l = ground arith

abbrev pub held : Option ForegroundCandidate → ℕ
held none = 0
held (some c) = 1

event_counts :
    (h : Host) (u : Option ForegroundUpdate) (b : Bool) (before after : Option ForegroundCandidate)
    (i : IdentityCacheInvalidator) (w : h.World)
    → Told before (record { update = u; counts_as_change = b }) after
    → enabled i.config ≡ true
    → i.foreground_count < u64_max
    → let (events, i', w') =
        event_for_candidate h (record { update = u; counts_as_change = b }) i w in
      (i'.config ≡ i.config)
      × (length events + i.foreground_count + held before ≡ i'.foreground_count + held after)
      × (i'.foreground_count ≤ suc i.foreground_count)
unfolding event_for_candidate
event_counts h none b before after i w told on l = ground arith
event_counts h (some (active c)) b none after i w told on l = ground arith
event_counts h (some (active c)) b (some d) after i w told on l =
    ground (arith, mark-counts h i w on l)
event_counts h (some (unknown x)) b before after i w told on l = absurd told

module _ {h : Host} {S : Type 0} (ops : ForegroundSource h S) where
  abbrev events_of : Result (List (EngineEvent h)) (EngineError h) → List (EngineEvent h)
  events_of (ok events) = events
  events_of (err e) = []

  -- `n` polls: the events of those that succeed, and the last state.
  pub polls : ℕ → Piped h S → List (EngineEvent h) × Piped h S
  polls zero t = ([], t)
  polls (suc n) t =
      let (r, t') = poll_changed ops t in
      let (rest, last) = polls n t' in (events_of r ++ rest, last)

  piped-counts :
      (i : IdentityCacheInvalidator) (before : Option ForegroundCandidate)
      (r : Result ForegroundUpdateResult (EngineError h) × (ForegroundManager S × h.World))
      → Leaves before r
      → enabled i.config ≡ true
      → i.foreground_count < u64_max
      → let (events, t) = piped i r in
        (t.1.config ≡ i.config)
        × (length (events_of events) + i.foreground_count + held before
            ≡ t.1.foreground_count + held t.0.last_payload)
        × (t.1.foreground_count ≤ suc i.foreground_count)
  piped-counts i before (ok r, (m, w)) k on l =
      event_counts h r.update r.counts_as_change before m.last_payload i w k on l
  piped-counts i before (err e, (m, w)) k on l = (refl, ground arith, omega arith)

  -- With checks enabled, and the counter far enough from its limit, `n` polls count one change for
  -- each event, but for the first candidate that the manager ever holds.
  pub polls-counts :
      (n : ℕ) (m : ForegroundManager S) (i : IdentityCacheInvalidator) (w : h.World)
      → enabled i.config ≡ true
      → i.foreground_count + n ≤ u64_max
      → let (events, t) = polls n (m, i, w) in
        length events + i.foreground_count + held m.last_payload
        ≡ t.1.foreground_count + held t.0.last_payload
  unfolding polls poll_changed
  polls-counts zero m i w on l = omega arith
  polls-counts (suc n) m i w on l =
      let r = poll_update ops (m, w) in
      let (same, here, step) =
        piped-counts i m.last_payload r (updates-Leaves ops [] 0 m w).0 on (omega arith) in
      let t : Piped h S = (piped i r).1 in
      let later = polls-counts n t.0 t.1 t.2 (ap enabled same ∙ on) (omega arith) in
      omega (arith, later, here, length-append (events_of (piped i r).0) (polls n t).0)
