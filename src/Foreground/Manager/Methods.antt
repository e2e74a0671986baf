-- ===== src/Foreground/Manager/Methods.antt =====
-- What a method of the manager leaves behind, on success and on failure.
use core_shift_engine.Base.{
  ℕ, zero, suc, ◌≡◌, ◌≢◌, refl, false, Option, none, some, ok, err, Result, is_some, Bool-cases,
  inl, inr,
}
use core_shift_engine.Paths.{FilePath}
use core_shift_engine.Host.{Host}
use core_shift_engine.Error.{EngineError}
use core_shift_engine.Foreground.Source.{ForegroundSource, ForegroundCandidate}
use core_shift_engine.Foreground.Manager.{
  ForegroundManager, ForegroundUpdateResult, active, unknown, repeats, filter_changed, filtered,
  again, attempt, poll_update, handle_fs_event_update, handle_priority_event_update,
  handle_stale_priority_event_update, event_retry_attempts,
}
use core_shift_engine.Foreground.Manager.Changes.{repeats_ne}

-- The payload before and after, for what was told.
abbrev pub Told :
    Option ForegroundCandidate → ForegroundUpdateResult → Option ForegroundCandidate → Type 0
Told before r after = elim r.update [
  | none ↦ (after ≡ before) × (r.counts_as_change ≡ false)
  | some (active c) ↦ (before ≢ some c) × (after ≡ some c) × (r.counts_as_change ≡ is_some before)
  | some (unknown u) ↦ ⊥
]

filter_changed-Told :
    {S : Type 0} (m : ForegroundManager S) (a : Option ForegroundCandidate)
    → Told m.last_payload (filter_changed m a).0 (filter_changed m a).1.last_payload
unfolding filter_changed
filter_changed-Told m none = (refl, refl)
filter_changed-Told m (some c) = elim (Bool-cases (repeats m.last_payload c)) [
  | inl same ↦ rw same (refl, refl)
  | inr other ↦ rw other (repeats_ne m.last_payload c other, refl, refl)
]

module _ {h : Host} {S : Type 0} where
  -- An error keeps the payload; a success tells a new candidate and holds it, or keeps the payload.
  abbrev pub Leaves :
      Option ForegroundCandidate
      → Result ForegroundUpdateResult (EngineError h) × (ForegroundManager S × h.World)
      → Type 0
  Leaves before (ok r, (m, w)) = Told before r m.last_payload
  Leaves before (err e, (m, w)) = m.last_payload ≡ before

  filtered-Leaves :
      (m : ForegroundManager S)
      (r : Result (Option ForegroundCandidate) (EngineError h) × (S × h.World))
      → Leaves m.last_payload (filtered m r)
  filtered-Leaves m (ok a, (s, w)) = filter_changed-Told (record m { source = s }) a
  filtered-Leaves m (err e, (s, w)) = refl

  again-Leaves :
      (m : ForegroundManager S)
      (rest : ForegroundManager S × h.World
        → Result ForegroundUpdateResult (EngineError h) × (ForegroundManager S × h.World))
      → ((s : S) (w : h.World) → Leaves m.last_payload (rest (record m { source = s }, w)))
      → (r : Result (Option ForegroundCandidate) (EngineError h) × (S × h.World))
      → Leaves m.last_payload (again m rest r)
  again-Leaves m rest k (ok (some c), (s, w)) = filtered-Leaves m (ok (some c), (s, w))
  again-Leaves m rest k (ok none, (s, w)) = k s w
  again-Leaves m rest k (err e, (s, w)) = refl

module _ {h : Host} {S : Type 0} (ops : ForegroundSource h S) where
  attempt-Leaves :
      (n : ℕ) (path : FilePath) (mask : ℕ) (m : ForegroundManager S) (w : h.World)
      → Leaves m.last_payload (attempt ops n path mask (m, w))
  unfolding attempt
  attempt-Leaves zero path mask m w = filter_changed-Told m none
  attempt-Leaves (suc n) path mask m w =
      again-Leaves m (attempt ops n path mask)
        (λ s w'. attempt-Leaves n path mask (record m { source = s }) w')
        (ops.handle_fs_event_with_mask path mask (m.source, w))

  -- Each of the four updating methods, whatever the source answers and however often it is asked:
  -- an error leaves the last payload as it was, no update means that it is unchanged, and an update
  -- tells a candidate that differs from the last payload, which it replaces, and counts as a change
  -- exactly if there was a payload before.
  pub updates-Leaves :
      (path : FilePath) (mask : ℕ) (m : ForegroundManager S) (w : h.World)
      → Leaves m.last_payload (poll_update ops (m, w))
        × Leaves m.last_payload (handle_fs_event_update ops path mask (m, w))
        × Leaves m.last_payload (handle_priority_event_update ops path (m, w))
        × Leaves m.last_payload (handle_stale_priority_event_update ops path (m, w))
  unfolding poll_update handle_fs_event_update handle_priority_event_update
      handle_stale_priority_event_update
  updates-Leaves path mask m w = (
    filtered-Leaves m (ops.poll_current (m.source, w)),
    attempt-Leaves event_retry_attempts path mask m w,
    filtered-Leaves m (ops.handle_priority_event path (m.source, w)),
    filtered-Leaves m (ops.handle_stale_priority_event path (m.source, w)),
  )
