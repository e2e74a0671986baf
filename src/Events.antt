-- ===== src/Events.antt =====
-- events/mod.rs: what the engine tells its caller.
use core_shift_engine.Base.{ℕ, Bool}
use core_shift_engine.Text.Chars.{Text}
use core_shift_engine.Host.{Host}
use core_shift_engine.Error.{EngineError}
use core_shift_engine.Foreground.Cache.{PackageProviderSource}
use core_shift_engine.Foreground.Source.{ForegroundCandidate, ForegroundUnknown}
use core_shift_engine.Identity.{ResolvedIdentity}

pub data EngineEvent (h : Host) : Type 0 where
  runtime_started runtime_stopped : EngineEvent h
  exec_completed : h.Output → EngineEvent h
  foreground_candidate_changed : ForegroundCandidate → EngineEvent h
  foreground_unknown : ForegroundUnknown → EngineEvent h
  identity_resolved : ResolvedIdentity → EngineEvent h
  identity_cache_warmed : PackageProviderSource → Bool → ℕ → EngineEvent h
  identity_cache_warmup_failed : Text → EngineEvent h
  service_failed : EngineError h → EngineEvent h
