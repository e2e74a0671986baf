-- ===== src/Foreground/Manager.antt =====
-- services/foreground/manager.rs: the manager drops what repeats the last candidate, and the
-- pipeline turns what is left into events and counts the changes.
pub mod Changes
pub mod Methods
pub mod Pipeline
mod Examples
use core_shift_engine.Base.{
  ℕ, zero, suc, ℤ, Bool, true, false, ◌&&◌, List, [], ◌∷◌, Option, none, some, Result, ok, err, Act,
  Ord, ◌==◌, nat_ord, int_ord, text_ord, if◌then◌else◌, is_some,
}
use core_shift_engine.Text.Chars.{Text}
use core_shift_engine.Paths.{FilePath}
use core_shift_engine.Host.{Host}
use core_shift_engine.Error.{EngineError}
use core_shift_engine.Events.{EngineEvent, foreground_candidate_changed, foreground_unknown}
use core_shift_engine.Invalidator.{IdentityCacheInvalidator, mark_foreground_candidate}
use core_shift_engine.Foreground.Source.{
  ForegroundSource, ForegroundSourceKind, ForegroundCandidate, ForegroundUnknown, cgroup_v1,
  cgroup_v2, activity_manager, auto_source, cleared_source,
}

pub record ForegroundManager (S : Type 0) : Type 0 where
  pub source : S
  pub last_payload : Option ForegroundCandidate

pub data ForegroundUpdate : Type 0 where
  active : ForegroundCandidate → ForegroundUpdate
  unknown : ForegroundUnknown → ForegroundUpdate

pub record ForegroundUpdateResult : Type 0 where
  pub update : Option ForegroundUpdate
  pub counts_as_change : Bool

-- `ForegroundManager::new`
abbrev pub new_manager : {S : Type 0} → S → ForegroundManager S
new_manager source = record { source = source; last_payload = none }

abbrev kind_code : ForegroundSourceKind → ℕ
kind_code cgroup_v1 = 0
kind_code cgroup_v2 = 1
kind_code activity_manager = 2
kind_code auto_source = 3
kind_code cleared_source = 4

abbrev option_eq : {A : Type 0} ⦃o : Ord A⦄ → Option A → Option A → Bool
option_eq none none = true
option_eq none (some b) = false
option_eq (some a) none = false
option_eq (some a) (some b) = a == b

abbrev bool_eq : Bool → Bool → Bool
bool_eq true b = b
bool_eq false true = false
bool_eq false false = true

-- The comparison in `filter_changed`, field by field.
pub same_candidate : ForegroundCandidate → ForegroundCandidate → Bool
same_candidate last candidate =
    kind_code last.source == kind_code candidate.source
    && option_eq last.pid candidate.pid
    && option_eq last.uid candidate.uid
    && option_eq last.package_name candidate.package_name
    && bool_eq last.identity_resolved candidate.identity_resolved

abbrev repeats : Option ForegroundCandidate → ForegroundCandidate → Bool
repeats none candidate = false
repeats (some last) candidate = same_candidate last candidate

abbrev no_update : ForegroundUpdateResult
no_update = record { update = none; counts_as_change = false }

unfoldable pub filter_changed :
    {S : Type 0}
    → ForegroundManager S
    → Option ForegroundCandidate
    → ForegroundUpdateResult × ForegroundManager S
filter_changed m none = (no_update, m)
filter_changed m (some candidate) = if repeats m.last_payload candidate then (no_update, m) else (
  record { update = some (active candidate); counts_as_change = is_some m.last_payload },
  record m { last_payload = some candidate },
)

-- The state of a method of the manager: the manager and the world.
abbrev pub Method : Host → Type 0 → Type 0 → Type 0
Method h S A = Act (EngineError h) (ForegroundManager S × h.World) A

abbrev filtered :
    {h : Host} {S : Type 0}
    → ForegroundManager S
    → Result (Option ForegroundCandidate) (EngineError h) × (S × h.World)
    → Result ForegroundUpdateResult (EngineError h) × (ForegroundManager S × h.World)
filtered m (ok candidate, (s, w)) =
    let (r, m') = filter_changed (record m { source = s }) candidate in (ok r, (m', w))
filtered m (err e, (s, w)) = (err e, (record m { source = s }, w))

-- One round of the retry loop: a candidate or an error ends it, and `rest` goes on.
abbrev again :
    {h : Host} {S : Type 0}
    → ForegroundManager S
    → Method h S ForegroundUpdateResult
    → Result (Option ForegroundCandidate) (EngineError h) × (S × h.World)
    → Result ForegroundUpdateResult (EngineError h) × (ForegroundManager S × h.World)
again m rest (ok (some candidate), (s, w)) = filtered m (ok (some candidate), (s, w))
again m rest (ok none, (s, w)) = rest (record m { source = s }, w)
again m rest (err e, (s, w)) = (err e, (record m { source = s }, w))

abbrev pub event_retry_attempts : ℕ
event_retry_attempts = 3

module _ {h : Host} {S : Type 0} (ops : ForegroundSource h S) where
  unfoldable pub poll_update : Method h S ForegroundUpdateResult
  poll_update (m, w) = filtered m (ops.poll_current (m.source, w))

  -- The loop with the attempts left; yielding the thread between them changes nothing here.
  unfoldable pub attempt : ℕ → FilePath → ℕ → Method h S ForegroundUpdateResult
  attempt zero path mask (m, w) = let (r, m') = filter_changed m none in (ok r, (m', w))
  attempt (suc n) path mask (m, w) =
      again m (attempt n path mask) (ops.handle_fs_event_with_mask path mask (m.source, w))

  unfoldable pub handle_fs_event_update : FilePath → ℕ → Method h S ForegroundUpdateResult
  unfolding attempt
  handle_fs_event_update path mask = attempt event_retry_attempts path mask

  unfoldable pub handle_priority_event_update : FilePath → Method h S ForegroundUpdateResult
  handle_priority_event_update path (m, w) =
      filtered m (ops.handle_priority_event path (m.source, w))

  unfoldable pub handle_stale_priority_event_update : FilePath → Method h S ForegroundUpdateResult
  handle_stale_priority_event_update path (m, w) =
      filtered m (ops.handle_stale_priority_event path (m.source, w))

abbrev event_of : {h : Host} → ForegroundUpdate → EngineEvent h
event_of (active candidate) = foreground_candidate_changed candidate
event_of (unknown u) = foreground_unknown u

-- `event_for_candidate`: a change counts, unless it is the first candidate.
unfoldable pub event_for_candidate :
    (h : Host)
    → ForegroundUpdateResult
    → IdentityCacheInvalidator
    → h.World
    → List (EngineEvent h) × IdentityCacheInvalidator × h.World
event_for_candidate h r i w = elim r.update [
  | none ↦ ([], i, w)
  | some update ↦
      let (i', w') = if r.counts_as_change then mark_foreground_candidate h i w else (i, w) in
      (event_of update ∷ [], i', w')
]

-- What the methods of the pipeline change.
abbrev pub Piped : Host → Type 0 → Type 0
Piped h S = ForegroundManager S × IdentityCacheInvalidator × h.World

abbrev piped :
    {h : Host} {S : Type 0}
    → IdentityCacheInvalidator
    → Result ForegroundUpdateResult (EngineError h) × (ForegroundManager S × h.World)
    → Result (List (EngineEvent h)) (EngineError h) × Piped h S
piped {h} i (ok r, (m, w)) =
    let (events, i', w') = event_for_candidate h r i w in (ok events, (m, i', w'))
piped i (err e, (m, w)) = (err e, (m, i, w))

module _ {h : Host} {S : Type 0} (ops : ForegroundSource h S) where
  unfoldable pub poll_changed : Act (EngineError h) (Piped h S) (List (EngineEvent h))
  poll_changed (m, i, w) = piped i (poll_update ops (m, w))

  unfoldable pub handle_fs_event_changed :
      FilePath → ℕ → Act (EngineError h) (Piped h S) (List (EngineEvent h))
  handle_fs_event_changed path mask (m, i, w) =
      piped i (handle_fs_event_update ops path mask (m, w))

  unfoldable pub handle_priority_event_changed :
      FilePath → Act (EngineError h) (Piped h S) (List (EngineEvent h))
  handle_priority_event_changed path (m, i, w) =
      piped i (handle_priority_event_update ops path (m, w))

  unfoldable pub handle_stale_priority_event_changed :
      FilePath → Act (EngineError h) (Piped h S) (List (EngineEvent h))
  handle_stale_priority_event_changed path (m, i, w) =
      piped i (handle_stale_priority_event_update ops path (m, w))
