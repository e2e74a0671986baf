-- ===== src/Foreground/Source.antt =====
-- services/foreground/source.rs: candidates, their filter, and the interface of a source.
pub mod Filter
pub mod Examples
use core_shift_engine.Base.{
  ℕ, ◌%◌, Bool, true, false, ◌&&◌, ◌||◌, not, List, Option, none, some, ℤ, leb, ◌==◌, nat_ord,
  text_ord, if◌then◌else◌, Act,
}
use core_shift_engine.Paths.{FilePath}
use core_shift_engine.Host.{Host}
use core_shift_engine.Error.{EngineError}
use core_shift_engine.Btree.Set.{BtreeSet, contains}
use core_shift_engine.Text.Chars.{Text}
use core_shift_engine.Foreground.Cache.{
  UidPackageCache, UidPackageState, exact, missing, ambiguous, uid_state,
}

pub data ForegroundSourceKind : Type 0 where
  cgroup_v1 cgroup_v2 activity_manager auto_source cleared_source : ForegroundSourceKind

pub record ForegroundCandidate : Type 0 where
  pub source : ForegroundSourceKind
  pub pid : Option ℤ
  pub uid : Option ℕ
  pub package_name : Option Text
  pub identity_resolved : Bool

pub record ForegroundUnknown : Type 0 where
  pub source : ForegroundSourceKind

pub record UidRemainderFilter : Type 0 where
  pub modulus : ℕ
  pub min_remainder : ℕ

-- `&&` does not divide by a zero modulus, and nor does the model: `uid % 0` is `uid` there.
unfoldable pub accepts : UidRemainderFilter → ℕ → Bool
accepts f uid = not (f.modulus == 0) && leb f.min_remainder (uid % f.modulus)

pub record ForegroundCandidateFilter : Type 0 where
  pub blocked_uids : BtreeSet ℕ
  pub accessibility_uids : BtreeSet ℕ
  pub blocked_packages : BtreeSet Text
  pub allow_system_uids : Bool
  pub uid_remainder_filter : Option UidRemainderFilter

abbrev refuses : Option UidRemainderFilter → ℕ → Bool
refuses none uid = false
refuses (some f) uid = not (accepts f uid)

unfoldable pub is_valid_uid : ForegroundCandidateFilter → ℕ → Bool
unfolding accepts
is_valid_uid f uid =
    if contains f.blocked_uids uid
    then false
    else if contains f.accessibility_uids uid
    then false
    else if refuses f.uid_remainder_filter uid
    then false
    else f.allow_system_uids || leb 10000 uid

-- The candidate for what the cache tells of its uid.
abbrev pub identify :
    ForegroundCandidateFilter → ForegroundCandidate → UidPackageState → Option ForegroundCandidate
identify f candidate (exact p) =
    if contains f.blocked_packages p
    then none
    else some (record candidate { package_name = some p; identity_resolved = true })
identify f candidate (ambiguous ps) = none
identify f candidate missing = some candidate

unfoldable pub candidate_for_uid :
    ForegroundCandidateFilter
    → ForegroundSourceKind
    → Option ℤ
    → ℕ
    → Option UidPackageCache
    → Option ForegroundCandidate
candidate_for_uid f source pid uid cache =
    let candidate : ForegroundCandidate = record {
      source = source;
      pid = pid;
      uid = some uid;
      package_name = none;
      identity_resolved = false;
    } in
    if not (is_valid_uid f uid)
    then none
    else elim cache [ none ↦ some candidate | some c ↦ identify f candidate (uid_state c uid) ]

-- `trait ForegroundSource`, implemented by `S`: `&mut self` methods are actions on the source and
-- the world. The registrations at the reactor are part of the world.
pub record ForegroundSource (h : Host) (S : Type 0) : Type 0 where
  pub kind : S → ForegroundSourceKind
  pub poll_current : Act (EngineError h) (S × h.World) (Option ForegroundCandidate)
  pub handle_fs_event_with_mask :
      FilePath → ℕ → Act (EngineError h) (S × h.World) (Option ForegroundCandidate)
  pub watch_hint_paths : S → List FilePath
  pub is_available : S → h.World → Bool
  pub watch_hint_mask : S → FilePath → ℕ
  pub register_priority_fds :
      S → BtreeSet FilePath → Act (EngineError h) h.World (List (h.Token × FilePath))
  pub priority_hint_paths : S → List FilePath
  pub priority_hint_keys : S → List (FilePath × ℕ)
  pub handle_priority_event :
      FilePath → Act (EngineError h) (S × h.World) (Option ForegroundCandidate)
  pub handle_stale_priority_event :
      FilePath → Act (EngineError h) (S × h.World) (Option ForegroundCandidate)
  pub unregister_priority_fd : S → FilePath → Act (EngineError h) h.World Bool
