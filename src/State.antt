-- ===== src/State.antt =====
-- state.rs: the state of the engine as the fold of its events.
use core_shift_engine.Base.{
  ℕ, ◌+◌, ◌-◌, ◌^◌, Bool, true, false, Option, none, some, List, [], ◌∷◌, min,
}
use core_shift_engine.Text.Chars.{Text}
use core_shift_engine.Host.{Host}
use core_shift_engine.Error.{message}
use core_shift_engine.Events.{
  EngineEvent, runtime_started, runtime_stopped, exec_completed, foreground_candidate_changed,
  foreground_unknown, identity_resolved, identity_cache_warmed, identity_cache_warmup_failed,
  service_failed,
}
use core_shift_engine.Foreground.Cache.{PackageProviderSource}
use core_shift_engine.Identity.{ResolvedIdentity}

pub record IdentityCacheState : Type 0 where
  pub source : Option PackageProviderSource
  pub coherent : Bool
  pub count : ℕ
  pub last_cache_error : Option Text

pub record EngineState : Type 0 where
  pub started : Bool
  pub completed_jobs : ℕ
  pub last_identity : Option ResolvedIdentity
  pub identity_cache : IdentityCacheState
  pub last_error : Option Text

abbrev pub u64_max : ℕ
u64_max = 2 ^ 64 - 1

-- `saturating_add` on `u64`.
abbrev pub saturating_add : ℕ → ℕ → ℕ
saturating_add a b = min (a + b) u64_max

-- `Reducer::apply`.
unfoldable pub apply : {h : Host} → EngineEvent h → EngineState → EngineState
apply runtime_started s = record s { started = true; last_error = none }
apply runtime_stopped s = record s { started = false }
apply (exec_completed output) s = record s { completed_jobs = saturating_add s.completed_jobs 1 }
apply (foreground_candidate_changed c) s = s
apply (foreground_unknown u) s = record s { last_identity = none }
apply (identity_resolved identity) s = record s { last_identity = some identity }
apply (identity_cache_warmed source coherent count) s = record s {
  identity_cache = record {
    source = some source;
    coherent = coherent;
    count = count;
    last_cache_error = none;
  };
}
apply (identity_cache_warmup_failed error) s = record s {
  identity_cache = record {
    source = none;
    coherent = false;
    count = 0;
    last_cache_error = some error;
  };
}
apply (service_failed error) s = record s { last_error = some (message error) }

-- The state after a run of events.
unfoldable pub apply_all : {h : Host} → List (EngineEvent h) → EngineState → EngineState
unfolding apply
apply_all [] s = s
apply_all (e ∷ es) s = apply_all es (apply e s)
